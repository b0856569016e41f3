-- ===== src/Xagent/Agents.antt =====
-- framework/pkg/xagent/agentManager.go: the agents of the open connections by session id, and session
-- ids by user id. An agent is a pointer into `session`; its session's `uid` is written through it.
pub mod Coherence
pub mod Stale
pub mod Connections
use xgame.Common.{
  ℕ, suc, ◌<◌, ◌&&◌, Bool, true, false, Option, none, some, String, List, [], ◌∷◌, Eq, ℕ_eq,
  string_eq, ◌==◌, ltb, if◌then◌else◌, map,
}
use xgame.Common.Map
use xgame.Common.Map.{Map}
use xgame.Go.{Result, ok, err, Exec}
use xgame.Go.Errors.{errorf}
use xgame.Go.Fmt.{text, num, sprintf}
use xgame.Pb.{Session, MsgCommon}

-- The pointers to Agents.
abbrev pub Pointer : Type 0
Pointer = ℕ

pub record Agents : Type 0 where
  pub session : Pointer → Session  -- the session of each agent
  pub sid_agent_map : Map String Pointer  -- sid -> Agent
  pub uid_map : Map ℕ String  -- uid -> sid

-- NewAgents, over the sessions that exist.
abbrev pub new_agents : (Pointer → Session) → Agents
new_agents session = record { session = session; sid_agent_map = Map.empty; uid_map = Map.empty }

abbrev pub uid_of : Agents → Pointer → ℕ
uid_of s a = (s.session a).uid

-- BindSID
unfoldable pub bind_sid : Pointer → Agents → Agents
bind_sid a s = record s { sid_agent_map = Map.put s.sid_agent_map (s.session a).sid a }

-- agent.session.Uid = uid
abbrev pub write_uid : (Pointer → Session) → Pointer → ℕ → Pointer → Session
write_uid session a uid b = if a == b then record (session b) { uid = uid } else session b

bind_found : Option Pointer → String → ℕ → Exec Agents (Unit {0})
bind_found none sid uid s = (err (errorf "[sid = %s] does not exist." (text sid ∷ [])), s)
bind_found (some a) sid uid s =
    if ltb 0 (uid_of s a) && uid_of s a == uid
    then (err (errorf "[uid = %d] has already bound." (num (uid_of s a) ∷ [])), s)
    else (
      ok tt,
      record s { session = write_uid s.session a uid; uid_map = Map.put s.uid_map uid sid },
    )

-- BindUID
unfoldable pub bind_uid : String → ℕ → Exec Agents (Unit {0})
unfolding bind_found
bind_uid sid uid s =
    if sid == ""
    then (err (errorf "[sid = %s] less than 1." (text sid ∷ [])), s)
    else if ltb uid 1
    then (err (errorf "[uid = %d] less than 1." (num uid ∷ [])), s)
    else bind_found (Map.get s.sid_agent_map sid) sid uid s

unbind_found : Option Pointer → String → Agents → Agents
unbind_found none sid s = s
unbind_found (some a) sid s = record s {
  sid_agent_map = Map.remove s.sid_agent_map sid;
  uid_map = Map.remove s.uid_map (uid_of s a);
}

-- Unbind
unfoldable pub unbind : String → Agents → Agents
unfolding unbind_found
unbind sid s = unbind_found (Map.get s.sid_agent_map sid) sid s

-- GetAgent
abbrev pub get_agent : Agents → String → Option Pointer
get_agent s sid = Map.get s.sid_agent_map sid

agent_of_sid : Agents → Option String → Option Pointer
agent_of_sid s none = none
agent_of_sid s (some sid) = Map.get s.sid_agent_map sid

-- GetAgentWithUID
unfoldable pub get_agent_with_uid : Agents → ℕ → Option Pointer
unfolding agent_of_sid
get_agent_with_uid s uid = if ltb uid 1 then none else agent_of_sid s (Map.get s.uid_map uid)

-- ForeachAgent: the agents that it visits, in some order
abbrev pub foreach_agent : Agents → List Pointer
foreach_agent s = map (λ entry. entry.1) (Map.entries s.sid_agent_map)

-- Count
abbrev pub count : Agents → ℕ
count s = Map.size s.sid_agent_map

-- defaultOnConnectFunc of net_parser.go: the session of the new agent, whose id nuid.Next has given, and
-- BindSID. The agent is a pointer that nothing else has.
abbrev pub new_connection : Pointer → String → String → Agents → Agents
new_connection a sid ip s = bind_sid a (record s {
  session = λ b. if a == b then record { sid = sid; uid = 0; ip = ip } else s.session b;
})

-- The default handler that Init sets: the agent whose Response gets the message, by the session id that came
-- with it.
abbrev pub default_receiver : Agents → MsgCommon → Option Pointer
default_receiver s common = get_agent s common.sid
