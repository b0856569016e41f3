-- ===== src/Application/Node.antt =====
-- NewAppNode of framework/application.go, with the components that it registers (the component.go of worker,
-- cluster and discovery, and the components of xagent). What their hooks do is a parameter.
use mathlib.Core.List.{Memᴰ}
use xgame.Common.{
  ◌≡◌, refl, Bool, true, false, Option, none, some, String, List, [], ◌∷◌, ◌++◌, inl, inr,
  Option-cases, subst, sym, ◌⊎◌,
}
use xgame.Go.{Result, ok, err, pure}
use xgame.Go.Errors.{errorf}
use xgame.Go.Fmt.{text}
use xgame.Profile.{ClusterCfg, NodeCfg, find_node}
use xgame.Application.{Application, Component, Hook, register, find, start_hooks}
use xgame.Application.Lifecycle.{starts_worker_twice}

-- What the hooks of the components call.
pub record Services (S : Type 0) : Type 0 where
  pub worker_start : Hook S
  pub worker_stop : Hook S
  pub cluster_init : Hook S
  pub cluster_stop : Hook S
  pub discovery_load : Hook S
  pub parser_init : Hook S
  pub parser_on_after_init : Hook S
  pub agents_init : Hook S
  pub connectors : List (Option (Component S))  -- of NewNetParser

-- The fields of Application that NewAppNode sets, beside those of the lifecycle.
pub record Node (S : Type 0) : Type 0 where
  pub cfg : NodeCfg
  pub is_frontend : Bool
  pub app : Application S

module _ {S : Type 0} where
  -- facade.Component. Set stores the application, which every hook here has at hand.
  abbrev pub base : String → Component S
  base name = record {
    name = name;
    set = pure tt;
    init = pure tt;
    on_after_init = pure tt;
    on_before_stop = pure tt;
    on_stop = pure tt;
  }

  -- worker/component.go
  abbrev pub worker_component : Services S → Component S
  worker_component v = record (base "worker_component") {
    on_after_init = v.worker_start;
    on_stop = v.worker_stop;
  }

  -- cluster/component.go
  abbrev pub cluster_component : Services S → Component S
  cluster_component v = record (base "cluster_component") {
    init = v.cluster_init;
    on_stop = v.cluster_stop;
  }

  -- discovery/component.go. Its OnStop calls the Stop of DiscoveryDefault, which is empty: ETCD has an OnStop
  -- of its own, but no Stop.
  abbrev pub discovery_component : Services S → Component S
  discovery_component v = record (base "discovery_component") { init = v.discovery_load }

  -- xagent/net_parser.go and xagent/agentManager.go
  abbrev pub parser_component : Services S → Component S
  parser_component v = record (base "net_parser") {
    init = v.parser_init;
    on_after_init = v.parser_on_after_init;
  }

  abbrev pub agents_component : Services S → Component S
  agents_component v = record (base "agents_manager") { init = v.agents_init }

  new_app : Services S → Application S
  new_app v = record {
    running = 0;
    components = [];
    on_shutdown_fn = [];
    connectors = [];
    worker_start = v.worker_start;
  }

  common_components : Services S → Application S
  unfolding new_app
  common_components v = register (some (discovery_component v) ∷ []) (
      register (some (cluster_component v) ∷ [])
        (register (some (worker_component v) ∷ []) (new_app v)))

  -- The components by `if app.IsFrontend()`.
  app_of : Services S → Bool → Application S
  unfolding common_components
  app_of v false = common_components v
  app_of v true =
      let parsing = register (some (parser_component v) ∷ []) (common_components v) in
      register (some (agents_component v) ∷ []) (record parsing { connectors = v.connectors })

  node_of : Services S → NodeCfg → Node S
  unfolding app_of
  node_of v cfg = record { cfg = cfg; is_frontend = cfg.is_gate; app = app_of v cfg.is_gate }

  node_found : Services S → String → Option NodeCfg → Result (Node S)
  unfolding node_of
  node_found v id none = err (errorf "[nodeId = %s] not found" (text id ∷ []))
  node_found v id (some cfg) = ok (node_of v cfg)

  -- NewAppNode
  unfoldable pub new_app_node : Services S → ClusterCfg → String → Result (Node S)
  unfolding node_found
  new_app_node v conf id = node_found v id (find_node conf id)

  -- The components of a node: the gate nodes have two more.
  abbrev pub components_of : Services S → Bool → List (Component S)
  components_of v false = worker_component v ∷ cluster_component v ∷ discovery_component v ∷ []
  components_of v true =
      worker_component v
      ∷ cluster_component v
      ∷ discovery_component v
      ∷ parser_component v
      ∷ agents_component v
      ∷ []

  app_components :
      (v : Services S) (gate : Bool)
      → ((app_of v gate).components ≡ components_of v gate)
        × ((app_of v gate).worker_start ≡ v.worker_start)
        × ((app_of v gate).running ≡ 0)
  unfolding app_of register find
  app_components v true = (refl, refl, refl)
  app_components v false = (refl, refl, refl)

  worker-Memᴰ : (v : Services S) (gate : Bool) → Memᴰ (worker_component v) (components_of v gate)
  worker-Memᴰ v true = Memᴰ.head refl
  worker-Memᴰ v false = Memᴰ.head refl

  pub new_app_node_outcome :
      (v : Services S) (conf : ClusterCfg) (id : String)
      → ((find_node conf id ≡ none)
          × (new_app_node v conf id ≡ err (errorf "[nodeId = %s] not found" (text id ∷ []))))
        ⊎ ((cfg : NodeCfg) × (n : Node S) × (find_node conf id ≡ some cfg)
            × (new_app_node v conf id ≡ ok n)
            × (n.cfg ≡ cfg)
            × (n.is_frontend ≡ cfg.is_gate)
            × (n.app.running ≡ 0)
            × (n.app.components ≡ components_of v cfg.is_gate)
            × ((xs : List (Hook S)) × (ys : List (Hook S)) × (start_hooks n.app
                  ≡ xs ++ v.worker_start ∷ (ys ++ v.worker_start ∷ []))))
  unfolding new_app_node
  new_app_node_outcome v conf id = elim (Option-cases (find_node conf id)) [
    | inl absent ↦ inl (absent, rw (absent, node_found) refl)
    | inr (cfg, found) ↦
        let (comps, start, idle) = app_components v cfg.is_gate in
        inr (
          cfg,
          node_of v cfg,
          found,
          rw (found, node_found) refl,
          unfold node_of in refl,
          unfold node_of in refl,
          unfold node_of in idle,
          unfold node_of in comps,
          unfold node_of in
              subst
                (λ h.
                  (xs : List (Hook S)) × (ys : List (Hook S)) × (start_hooks (app_of v cfg.is_gate)
                    ≡ xs ++ h ∷ (ys ++ h ∷ [])))
                start
                (starts_worker_twice (app_of v cfg.is_gate) (worker_component v)
                  (subst (Memᴰ (worker_component v)) (sym comps) (worker-Memᴰ v cfg.is_gate))
                  (sym start)),
        )
  ]
