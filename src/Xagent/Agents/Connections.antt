-- ===== src/Xagent/Agents/Connections.antt =====
-- The agents of a gate while clients connect, log in once and leave: agentManager.go and defaultOnConnectFunc of
-- net_parser.go, in any order of the calls.
use xgame.Common.{
  ℕ, ◌<◌, ◌≡◌, ◌≢◌, ◌↔◌, ◌∙◌, ap, none, some, String, ℕ_eq, string_eq, ◌==◌, if◌then◌else◌, arith,
}
use xgame.Common.Map
use xgame.Pb.{Session}
use xgame.Xagent.Agents.{
  Agents, Pointer, new_agents, uid_of, bind_uid, unbind, get_agent, get_agent_with_uid,
  new_connection,
}
use xgame.Xagent.Agents.Coherence.{
  IsCoherent, new-IsCoherent, bind_sid-IsCoherent, bind_uid-IsCoherent, unbind-IsCoherent,
  get_agent_with_uid_iff,
}

-- What clients do. nuid.Next gives ids that are not filed and the new agent is a pointer that is not filed; a user
-- logs in on a connection without user, and not while the user has another one.
pub data Step (s : Agents) : Agents → Type 0 where
  connect :
      (a : Pointer) (sid ip : String)
      → get_agent s sid ≡ none
      → ((j : String) → get_agent s j ≢ some a)
      → Step s (new_connection a sid ip s)
  log_in :
      (sid : String) (uid : ℕ)
      → ((a : Pointer) → get_agent s sid ≡ some a → uid_of s a ≡ 0)
      → Map.get s.uid_map uid ≡ none
      → Step s (bind_uid sid uid s).1
  leave : (sid : String) → Step s (unbind sid s)

pub data Reach (session : Pointer → Session) : Agents → Type 0 where
  init : Reach session (new_agents session)
  next : {s t : Agents} → Reach session s → Step s t → Reach session t

module _ (a : Pointer) (sid ip : String) (s : Agents) (c : IsCoherent s)
    (unfiled : (j : String) → get_agent s j ≢ some a) where
  abbrev allocated : Agents
  allocated = record s {
    session = λ b. if a == b then record { sid = sid; uid = 0; ip = ip } else s.session b;
  }

  apart : (j : String) (b : Pointer) → get_agent s j ≡ some b → a ≢ b
  apart j b filed e = unfiled j (ground (arith, filed, e))

  -- A new session at a pointer that is not filed changes no filed one.
  allocated-IsCoherent : IsCoherent allocated
  allocated-IsCoherent = record {
    named = λ j b h. ground (arith, apart j b h, c.named j b h);
    bound = λ uid j h.
        let (b, filed, owns, user) = c.bound uid j h in
        (b, filed, ground (arith, apart j b filed, owns), user);
    listed = λ j b h. ground (arith, apart j b h, c.listed j b h);
  }

Step-IsCoherent : {s t : Agents} → IsCoherent s → Step s t → IsCoherent t
Step-IsCoherent {s} c (connect a sid ip fresh unfiled) =
    let t = allocated a sid ip s c unfiled in
    let here : (t.session a).sid ≡ sid = ground arith in
    bind_sid-IsCoherent a t (allocated-IsCoherent a sid ip s c unfiled)
      (ap (get_agent s) here ∙ fresh) (ground arith)
Step-IsCoherent {s} c (log_in sid uid guest free) = bind_uid-IsCoherent sid uid s c guest free
Step-IsCoherent {s} c (leave sid) = unbind-IsCoherent sid s c

all-IsCoherent : {session : Pointer → Session} {s : Agents} → Reach session s → IsCoherent s
all-IsCoherent {session} init = new-IsCoherent session
all-IsCoherent (next r x) = Step-IsCoherent (all-IsCoherent r) x

-- After any calls of defaultOnConnectFunc, BindUID and Unbind for clients that connect under new session ids, log
-- in as a user that has no other session, and leave: an agent is filed under its own session id, a user id is bound
-- to a session exactly when the agent that is filed for this session has this user, and so GetAgentWithUID of a
-- user id above 0 finds an agent exactly when it is filed and its session has that user.
pub Reach-IsCoherent :
    {session : Pointer → Session} {s : Agents} (uid : ℕ) (a : Pointer)
    → Reach session s
    → 0 < uid
    → IsCoherent s
      × ((get_agent_with_uid s uid ≡ some a)
          ↔ ((get_agent s (s.session a).sid ≡ some a) × (uid_of s a ≡ uid)))
Reach-IsCoherent {s} uid a r user =
    let c = all-IsCoherent r in (c, get_agent_with_uid_iff s uid a c user)
