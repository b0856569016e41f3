-- ===== src/Tests/ApplicationTests.antt =====
-- Runs of framework/application.go and framework/profile: the world is the list of the calls.
use mathlib.Core.List.{reverse}
use xgame.Common.{
  map, ◌≡◌, ◌⊎◌, refl, true, false, none, some, String, List, [], ◌∷◌, ◌++◌, string_eq,
}
use xgame.Common.Map
use xgame.Go.{ok, panic}
use xgame.Profile.{ClusterCfg, NodeCfg}
use xgame.Util.{try}
use xgame.Application.{
  Application, Component, Hook, register, find, find_in, startup, start_hooks, stop_hooks,
  register_connectors, run_all, try_all,
}
use xgame.Application.Components.{IsFiled, register-IsFiled}
use xgame.Application.Die.{
  Die, Phase, Reach, init, next, lease, start, shutdown, to_startup, to_keepalive, shutdown_lost,
}
use xgame.Application.Lifecycle.{AllReturn, StopsAt, settle, up, down, startup_outcome}
use xgame.Application.Node.{Services, Node}

abbrev note : String → Hook (List String)
note s calls = (ok tt, calls ++ s ∷ [])

abbrev fail : String → Hook (List String)
fail s calls = (panic s, calls ++ s ∷ [])

abbrev alpha : Component (List String)
alpha = record {
  name = "alpha";
  set = note "set alpha";
  init = note "init alpha";
  on_after_init = note "after alpha";
  on_before_stop = fail "before alpha";
  on_stop = note "stop alpha";
}

abbrev beta : Component (List String)
beta = record {
  name = "beta";
  set = note "set beta";
  init = note "init beta";
  on_after_init = note "after beta";
  on_before_stop = note "before beta";
  on_stop = fail "stop beta";
}

abbrev fresh : Application (List String)
fresh = record {
  running = 0;
  components = [];
  on_shutdown_fn = note "shutdown" ∷ [];
  connectors = [];
  worker_start = note "worker";
}

abbrev two : Application (List String)
two = register (some alpha ∷ some beta ∷ some alpha ∷ none ∷ []) fresh

-- The second `alpha` is refused.
two_components : two.components ≡ alpha ∷ beta ∷ []
unfolding register find find_in
two_components = refl

two-IsFiled : IsFiled two.components
two-IsFiled = register-IsFiled (some alpha ∷ some beta ∷ some alpha ∷ none ∷ []) fresh tt

abbrev waiting : Application (List String) × List String → Application (List String) × List String
waiting (a, calls) = (a, calls ++ "wait" ∷ [])

-- Two hooks panic while the node stops, and the others are called all the same.
full_run :
    (startup waiting (two, [])).1.1
    ≡ "set alpha" ∷ "set beta" ∷ "init alpha" ∷ "init beta" ∷ "after alpha" ∷ "after beta"
      ∷ "worker" ∷ "wait" ∷ "shutdown" ∷ "before beta" ∷ "before alpha" ∷ "stop beta" ∷ "stop alpha"
      ∷ []
unfolding startup start_hooks stop_hooks register_connectors run_all try_all try register find
    find_in
full_run = refl

startup_outcome_example :
    let ready = register_connectors fresh.connectors fresh in
    let hooks =
      map (λ c. c.set) ready.components
      ++ (map (λ c. c.init) ready.components
          ++ (map (λ c. c.on_after_init) ready.components ++ ready.worker_start ∷ [])) in
    let over = waiting (up ready, settle hooks []) in
    let stops =
      over.0.on_shutdown_fn
      ++ (map (λ c. c.on_before_stop) (reverse over.0.components)
          ++ map (λ c. c.on_stop) (reverse over.0.components)) in
    (AllReturn hooks []
      × (startup waiting (fresh, []) ≡ (ok tt, (down over.0, settle stops over.1))))
    ⊎ ((stop : StopsAt hooks []) × (startup waiting (fresh, []) ≡ (
      (stop.hook (settle stop.before [])).0,
      (ready, (stop.hook (settle stop.before [])).1),
    )))
startup_outcome_example = startup_outcome waiting fresh [] refl

abbrev services : Services (List String)
services = record {
  worker_start = note "worker";
  worker_stop = note "worker stop";
  cluster_init = note "cluster";
  cluster_stop = note "cluster stop";
  discovery_load = note "discovery";
  parser_init = note "parser";
  parser_on_after_init = note "connectors";
  agents_init = note "agents";
  connectors = [];
}

abbrev pub gate1 : NodeCfg
gate1 = record {
  node_id = "gate1";
  node_type = "gate";
  ports = Map.empty;
  is_gate = true;
  log = record {
    level = "debug";
    enable_console_writer = true;
    enable_file_writer = true;
    filename = "./logs/%s-%s.log";
  };
}

abbrev pub conf : ClusterCfg
conf = record { project = "xgame"; etcd_endpoints = []; nodes = gate1 ∷ []; nats_address = "" }

-- The application waits, with etcd as its discovery.
abbrev waits_with_etcd : (d : Die) × Reach d × (d.phase ≡ Phase.waiting) × (d.keepalive ≡ true)
waits_with_etcd = (_, next (next init (lease refl refl)) (start refl), refl, refl)

-- Two calls of Shutdown return.
abbrev both_returned : (d : Die) × Reach d × (d.returned ≡ 2)
both_returned = (
  _,
  next (next (next (next waits_with_etcd.1 shutdown) (to_keepalive 0 refl refl)) shutdown)
      (to_startup 0 refl refl),
  refl,
)

shutdown_lost_example :
    (e : Die) × Reach e
    × (e.phase ≡ Phase.waiting)
    × (e.returned ≡ 1)
    × (e.sending ≡ 0)
    × (e.keepalive ≡ false)
shutdown_lost_example = shutdown_lost waits_with_etcd.1 waits_with_etcd.2 waits_with_etcd.3
