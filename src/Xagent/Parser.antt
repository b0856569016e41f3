-- ===== src/Xagent/Parser.antt =====
-- framework/pkg/xagent/net_parser.go: the connectors of a gate and its agents. The goroutines that Start spawns are
-- calls of the connectors.
use xgame.Common.{ℕ, Option, none, some, true, List, [], ◌∷◌, ◌++◌}
use xgame.Go.{ok, panic, Exec}
use xgame.Go.Fmt.{num, sprintf}
use xgame.Connector.{Options, Connector, new_connector, on_connect}

-- Parser. `A` are the agents, `F` the functions for new connections, and a nil connector is `none`.
pub record Parser (A F : Type 0) : Type 0 where
  pub connectors : List (Option Options × Connector F)
  pub on_new_agent_func : Option F
  pub agents : Option A

module _ {F : Type 0} where
  connect_all : F → List (Option Options × Connector F) → List (Option Options × Connector F)
  connect_all f [] = []
  connect_all f ((o, c) ∷ cs) = (o, on_connect (some f) c) ∷ connect_all f cs

module _ {A F : Type 0} where
  -- AddConnector
  abbrev pub add_connector : Option Options → Parser A F → Parser A F
  add_connector o p = record p {
    connectors = p.connectors ++ (o, record { on_connect_func = none; running = true }) ∷ [];
  }

  -- SetOnNewAgent
  abbrev pub set_on_new_agent : F → Parser A F → Parser A F
  set_on_new_agent fn p = record p { on_new_agent_func = some fn }

  -- NewNetParser, with the ports of the node for "tcp" and "ws", 0 for a missing one.
  unfoldable pub new_net_parser : ℕ → ℕ → F → Parser A F
  new_net_parser tcp ws log_close = set_on_new_agent log_close (
      add_connector (new_connector (sprintf ":%d" (num ws ∷ [])) []) (
        add_connector (new_connector (sprintf ":%d" (num tcp ∷ [])) [])
          (record { connectors = []; on_new_agent_func = none; agents = none })))

  -- `p.App().Find(AgentsName).(*Agents)`: the assertion of a nil interface panics.
  found_agents : Option A → Exec (Parser A F) (Unit {0})
  found_agents none p =
      (panic "interface conversion: facade.IComponent is nil, not *xagent.Agents", p)
  found_agents (some a) p = (ok tt, record p { agents = some a })

  -- Init, over what Find gives
  unfoldable pub init : Option A → Exec (Parser A F) (Unit {0})
  unfolding found_agents
  init found p = elim p.connectors [
    | [] ↦ (panic "connectors is nil. Please call the AddConnector(...) method add IConnector.", p)
    | ◌∷◌ c cs ↦ found_agents found p
  ]

  -- OnAfterInit: every connector gets defaultOnConnectFunc, here `f`.
  unfoldable pub on_after_init : F → Parser A F → Parser A F
  unfolding connect_all
  on_after_init f p = record p { connectors = connect_all f p.connectors }
