-- ===== src/Xagent/Agents/Coherence.antt =====
-- While each connection binds one user and no user is bound twice, the two maps of agentManager.go agree.
use xgame.Common.{
  Bool-cases, ℕ, ◌<◌, ◌≡◌, ◌≢◌, ◌↔◌, refl, Option, none, some, String, ℕ_eq, string_eq, arith,
  eq_iff, nat_eq, ltb, Option-cases, inl, inr, ◌==◌, if◌then◌else◌, ap,
}
use xgame.Common.Map
use xgame.Common.Map.{get-empty, get-put, get-remove}
use xgame.Pb.{Session}
use xgame.Xagent.Agents.{
  Agents, Pointer, new_agents, uid_of, bind_sid, bind_uid, bind_found, unbind, unbind_found,
  get_agent, get_agent_with_uid, write_uid,
}

pub record IsCoherent (s : Agents) : Type 0 where
  -- An agent is filed under its own session id.
  pub named : (sid : String) (a : Pointer) → get_agent s sid ≡ some a → (s.session a).sid ≡ sid
  -- A bound user id belongs to the session of a filed agent.
  pub bound :
      (uid : ℕ) (sid : String)
      → Map.get s.uid_map uid ≡ some sid
      → (a : Pointer) × (get_agent s sid ≡ some a) × (uid_of s a ≡ uid) × (0 < uid)
  -- The user of a filed agent is bound to its session.
  pub listed :
      (sid : String) (a : Pointer)
      → get_agent s sid ≡ some a
      → 0 < uid_of s a
      → Map.get s.uid_map (uid_of s a) ≡ some sid

pub new-IsCoherent : (session : Pointer → Session) → IsCoherent (new_agents session)
new-IsCoherent session = record {
  named = λ sid a h. cc (get-empty {V = Pointer} sid);
  bound = λ uid sid h. absurd (cc (get-empty {V = String} uid));
  listed = λ sid a h. cc (get-empty {V = Pointer} sid);
}

-- BindSID of an agent whose session has no user and an id that is not filed keeps the maps
-- coherent.
pub bind_sid-IsCoherent :
    (a : Pointer) (s : Agents)
    → IsCoherent s
    → get_agent s (s.session a).sid ≡ none
    → uid_of s a ≡ 0
    → IsCoherent (bind_sid a s)
unfolding bind_sid
bind_sid-IsCoherent a s c fresh guest = record {
  named = λ sid b. simp get-put (ground (arith, eq_iff (s.session a).sid sid, c.named sid b));
  bound = λ uid sid h.
      let (b, filed, owns, user) = c.bound uid sid h in
      (b, simp get-put (ground (arith, filed, fresh, eq_iff (s.session a).sid sid)), owns, user);
  listed = λ sid b. simp get-put (ground (arith, c.listed sid b));
}

module _ (sid : String) (s : Agents) (c : IsCoherent s) (a : Pointer)
    (filed : get_agent s sid ≡ some a) where
  unbound : Agents
  unbound = unbind_found (some a) sid s

  -- Another session has another user, if it has one.
  other_user :
      (j : String) (b : Pointer)
      → get_agent s j ≡ some b
      → sid ≢ j
      → 0 < uid_of s b
      → uid_of s a ≢ uid_of s b
  other_user j b h ne user same = ne (
      ground (
        arith,
        c.listed sid a filed (omega arith),
        c.listed j b h user,
        ap (Map.get s.uid_map) same,
      ))

  split_remove :
      (uid : ℕ) (j : String)
      → (if uid_of s a == uid then none else Map.get s.uid_map uid) ≡ some j
      → (Map.get s.uid_map uid ≡ some j) × (uid_of s a ≢ uid)
  split_remove uid j h = (ground arith, λ e. ground (arith, e))

  unbound-IsCoherent : IsCoherent unbound
  unfolding unbound unbind_found
  unbound-IsCoherent = record {
    named = λ j b. simp get-remove (ground (arith, c.named j b));
    bound = λ uid j h.
        let h' = simp get-remove at h in
        let (kept, ne) = split_remove uid j h' in
        let (b, fb, owns, user) = c.bound uid j kept in
        (b, simp get-remove (ground (arith, fb, filed, owns, ne, eq_iff sid j)), owns, user);
    listed = λ j b. simp get-remove (ground (arith, c.listed j b, other_user j b, eq_iff sid j));
  }

-- Unbind takes the agent of its session away, and of no other.
pub get_agent-unbind :
    (sid other : String) (s : Agents)
    → get_agent (unbind sid s) other ≡ (if sid == other then none else get_agent s other)
unfolding unbind
get_agent-unbind sid other s = elim (Option-cases (get_agent s sid)) [
  | inl absent ↦ rw (absent, unbind_found) (ground (arith, absent, eq_iff sid other))
  | inr (a, filed) ↦ rw (filed, unbind_found) (get-remove s.sid_agent_map sid other)
]

-- Unbind of any session id, filed or not, keeps the maps coherent.
pub unbind-IsCoherent : (sid : String) (s : Agents) → IsCoherent s → IsCoherent (unbind sid s)
unfolding unbind
unbind-IsCoherent sid s c = elim (Option-cases (get_agent s sid)) [
  | inl absent ↦ rw (absent, unbind_found) c
  | inr (a, filed) ↦ rw (filed, unbind_found) (unfold unbound in unbound-IsCoherent sid s c a filed)
]

module _ (sid : String) (uid : ℕ) (s : Agents) (c : IsCoherent s) (a : Pointer)
    (filed : get_agent s sid ≡ some a) (guest : uid_of s a ≡ 0)
    (free : Map.get s.uid_map uid ≡ none) (user : 0 < uid) where
  written : Agents
  written = record s { session = write_uid s.session a uid; uid_map = Map.put s.uid_map uid sid }

  written_bound :
      (u : ℕ) (j : String)
      → Map.get written.uid_map u ≡ some j
      → (b : Pointer) × (get_agent s j ≡ some b) × (uid_of written b ≡ u) × (0 < u)
  unfolding written
  written_bound u j h = elim (Bool-cases (nat_eq uid u)) [
    | inl same ↦
        (a, ground (arith, rw same at (simp get-put at h), filed), ground arith, ground arith)
    | inr other ↦
        let (b, fb, owns, pos) = c.bound u j (rw other at (simp get-put at h)) in
        (b, fb, ground arith, pos)
  ]

  written-IsCoherent : IsCoherent written
  unfolding written
  written-IsCoherent = record {
    named = λ j b h. ground (arith, c.named j b h);
    bound = written_bound;
    listed = λ j b h.
        simp get-put (λ pos. ground (arith, c.listed j b h, c.named sid a filed, c.named j b h));
  }

bind_found-IsCoherent :
    (o : Option Pointer) (sid : String) (uid : ℕ) (s : Agents)
    → IsCoherent s
    → get_agent s sid ≡ o
    → ((a : Pointer) → get_agent s sid ≡ some a → uid_of s a ≡ 0)
    → Map.get s.uid_map uid ≡ none
    → 0 < uid
    → IsCoherent (bind_found o sid uid s).1
unfolding bind_found written
bind_found-IsCoherent none sid uid s c o guest free user = c
bind_found-IsCoherent (some a) sid uid s c filed guest free user =
    rw (guest a filed) (written-IsCoherent sid uid s c a filed (guest a filed) free user)

-- BindUID, on each of its branches, keeps the maps coherent, when the session has no user yet and
-- the user has no session.
pub bind_uid-IsCoherent :
    (sid : String) (uid : ℕ) (s : Agents)
    → IsCoherent s
    → ((a : Pointer) → get_agent s sid ≡ some a → uid_of s a ≡ 0)
    → Map.get s.uid_map uid ≡ none
    → IsCoherent (bind_uid sid uid s).1
unfolding bind_uid
bind_uid-IsCoherent sid uid s c guest free = elim (Bool-cases (sid == "")) [
  | inl empty ↦ rw empty c
  | inr named ↦ elim (Bool-cases (ltb uid 1)) [
    | inl low ↦ rw (named, low) c
    | inr user ↦
        rw (named, user)
          (bind_found-IsCoherent (get_agent s sid) sid uid s c refl guest free (ground arith))
  ]
]

-- In coherent maps GetAgentWithUID of a user id above 0 finds an agent exactly when the agent is
-- filed under its session id and its session has that user.
pub get_agent_with_uid_iff :
    (s : Agents) (uid : ℕ) (a : Pointer)
    → IsCoherent s
    → 0 < uid
    → (get_agent_with_uid s uid ≡ some a)
      ↔ ((get_agent s (s.session a).sid ≡ some a) × (uid_of s a ≡ uid))
unfolding get_agent_with_uid
get_agent_with_uid_iff s uid a c user = (
  λ h. elim (Option-cases (Map.get s.uid_map uid)) [
    | inl unbound ↦ ground (arith, unbound)
    | inr (sid, e) ↦ ground (arith, e, c.bound uid sid e, c.named sid a)
  ],
  λ h. ground (arith, c.listed (s.session a).sid a h.0, ap (Map.get s.uid_map) h.1),
)
