-- ===== src/Xagent/Agents/Stale.antt =====
-- What agentManager.go leaves behind when a connection changes its user, or a user logs in twice.
use xgame.Common.{ℕ, ◌<◌, ◌≡◌, ◌≢◌, none, some, String, ℕ_eq, string_eq, arith, eq_iff}
use xgame.Common.Map
use xgame.Common.Map.{get-put, get-remove}
use xgame.Go.{ok}
use xgame.Xagent.Agents.{
  Agents, Pointer, uid_of, bind_uid, unbind, unbind_found, get_agent, get_agent_with_uid, write_uid,
}

-- The state after a BindUID that succeeds.
abbrev bound_state : Agents → String → Pointer → ℕ → Agents
bound_state s sid a uid = record s {
  session = write_uid s.session a uid;
  uid_map = Map.put s.uid_map uid sid;
}

-- BindUID succeeds for a filed agent and a user that it does not have yet, whether or not the agent has
-- another user and the user another session.
pub bind_uid-ok :
    (s : Agents) (sid : String) (a : Pointer) (uid : ℕ)
    → sid ≢ ""
    → 0 < uid
    → get_agent s sid ≡ some a
    → uid_of s a ≢ uid
    → bind_uid sid uid s ≡ (ok tt, bound_state s sid a uid)
unfolding bind_uid
bind_uid-ok s sid a uid named user filed new = ground (arith, eq_iff sid "", filed)

-- After a connection is bound to one user and then to another one, GetAgentWithUID of the first
-- user still finds the connection, though its session has the other user.
pub rebind_leaves_old_user :
    (s : Agents) (sid : String) (a : Pointer) (u v : ℕ)
    → sid ≢ ""
    → 0 < u
    → 0 < v
    → u ≢ v
    → get_agent s sid ≡ some a
    → uid_of s a ≢ u
    → let s' = (bind_uid sid v (bind_uid sid u s).1).1 in
      (get_agent_with_uid s' u ≡ some a) × (uid_of s' a ≡ v)
unfolding get_agent_with_uid
rebind_leaves_old_user s sid a u v named pu pv ne filed new =
    rw (bind_uid-ok s sid a u named pu filed new) (
      rw (bind_uid-ok (bound_state s sid a u) sid a v named pv filed (ground arith))
        (simp get-put (ground (arith, filed))))

-- When a user is bound to one connection, then to another one, and the first one is unbound,
-- GetAgentWithUID of the user finds nothing, though the other connection is filed and has the user.
pub relogin_loses_user :
    (s : Agents) (sid sid' : String) (a b : Pointer) (u : ℕ)
    → sid ≢ ""
    → sid' ≢ ""
    → sid ≢ sid'
    → a ≢ b
    → 0 < u
    → get_agent s sid ≡ some a
    → get_agent s sid' ≡ some b
    → uid_of s a ≢ u
    → uid_of s b ≢ u
    → let s' = unbind sid (bind_uid sid' u (bind_uid sid u s).1).1 in
      (get_agent_with_uid s' u ≡ none) × (get_agent s' sid' ≡ some b) × (uid_of s' b ≡ u)
unfolding get_agent_with_uid unbind
relogin_loses_user s sid sid' a b u named named' ne distinct user filed filed' new new' =
    rw (bind_uid-ok s sid a u named user filed new) (
      rw (bind_uid-ok (bound_state s sid a u) sid' b u named' user filed' (ground arith)) (
        rw (filed, unbind_found)
          (simp (get-put, get-remove) (ground (arith, filed', eq_iff sid sid')))))
