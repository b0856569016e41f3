-- ===== src/Xagent/Agent/Closing.antt =====
-- The end of a connection: closeProcess of framework/pkg/xagent/agent.go on the maps of agentManager.go, and the
-- methods of an agent that call them. The close functions of onCloseFunc may change the maps and may panic.
use xgame.Common.{
  ℕ, ◌≡◌, Option, none, some, String, List, [], ◌∷◌, ◌++◌, string_eq, ℕ_eq, ◌==◌, if◌then◌else◌,
}
use xgame.Go.{Exec}
use xgame.Util.{try}
use xgame.Application.{Hook, run_all}
use xgame.Xagent.Agents.{Agents, Pointer, bind_uid, unbind, get_agent}
use xgame.Xagent.Agents.Coherence.{get_agent-unbind}

-- Bind
abbrev pub bind : Pointer → ℕ → Exec Agents (Unit {0})
bind a uid s = bind_uid (s.session a).sid uid s

-- Unbind
abbrev pub unbind_agent : Pointer → Agents → Agents
unbind_agent a s = unbind (s.session a).sid s

-- AddOnClose; `none` is nil.
abbrev pub add_on_close : Option (Hook Agents) → List (Hook Agents) → List (Hook Agents)
add_on_close none fns = fns
add_on_close (some fn) fns = fns ++ fn ∷ []

-- What the close functions leave: the first one that panics ends their loop.
abbrev pub after_close_funcs : List (Hook Agents) → Agents → Agents
after_close_funcs fns s = (try (run_all fns) (λ text t. t) s).1

-- closeProcess, on the maps
unfoldable pub close_process : List (Hook Agents) → Pointer → Agents → Agents
close_process fns a s = unbind_agent a (after_close_funcs fns s)

-- However the close functions of a connection end, its session has no agent when closeProcess is over, and every other
-- session has the agent that the close functions have left it.
pub get_agent-close_process :
    (fns : List (Hook Agents)) (a : Pointer) (s : Agents) (other : String)
    → get_agent (close_process fns a s) other ≡ (
        if ((after_close_funcs fns s).session a).sid == other
        then none
        else get_agent (after_close_funcs fns s) other)
unfolding close_process
get_agent-close_process fns a s other =
    get_agent-unbind ((after_close_funcs fns s).session a).sid other (after_close_funcs fns s)
