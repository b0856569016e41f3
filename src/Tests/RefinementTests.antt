-- ===== src/Tests/RefinementTests.antt =====
-- Runs of framework/pkg/discovery against its specifications.
use xgame.Common.{
  string_eq, ℕ, false, Option, ◌≡◌, refl, false, is_some, none, some, List, [], ◌∷◌, map,
}
use xgame.Common.Map.{get}
use xgame.Pb.{Member}
use xgame.Discovery.{pre_init}
use xgame.Discovery.Members.{IsKeyed}
use xgame.Discovery.Refinement.{Op, add, remove, run, replay, run_refines}
use xgame.Discovery.Refinement.Listener.{heard, watched_by, listener_view}
use xgame.Discovery.Etcd.{watch}
use xgame.Discovery.Etcd.Live.{Change, up, down, alive, listed, event_of, watch_refines}
use xgame.Go.{Result, ok, pure}
use xgame.Discovery.Etcd.Load.{Client, Node, Etcd, own_member}
use xgame.Tests.DiscoveryTests.{gate, game, parse, prefix_named, id_clean}

-- A second game node under the id of the first one comes too early, and once more when the first one has gone.
abbrev game_again : Member
game_again = record game { address = "127.0.0.1:9002" }

abbrev pub calls : List Op
calls = add gate ∷ add game ∷ add game_again ∷ remove "game1" ∷ add game_again ∷ []

specified : replay "game1" calls none ≡ some game_again
unfolding replay
specified = refl

run_refines_example :
    IsKeyed (run calls pre_init)
    × (get (run calls pre_init).member_map "game1" ≡ replay "game1" calls none)
run_refines_example = run_refines calls "game1"

listener_view_example :
    heard 3 "game1" (run calls (watched_by 3)).calls none
    ≡ get (run calls (watched_by 3)).member_map "game1"
listener_view_example = listener_view 3 calls "game1"

abbrev write : Member → List ℕ
write m = 1 ∷ []

abbrev changes : List Change
changes = down "gate1" ∷ up gate ∷ []

watch_refines_example :
    is_some (
      get
        (watch parse "xgame"
          (map write (gate ∷ []))
          (map (event_of parse write "xgame") changes)
          pre_init).member_map
        "gate1")
    ≡ alive "gate1" changes (listed "gate1" (gate ∷ []) false)
watch_refines_example =
    watch_refines parse write "xgame" (gate ∷ []) changes "gate1" prefix_named (refl, tt)
      (id_clean, (refl, tt))

-- An etcd that holds the values that were put.
abbrev gate_node : Node
gate_node = record { node_id = "gate1"; node_type = "gate"; project = "xgame" }

abbrev values_client : Client (List (List ℕ))
values_client = record {
  connect = pure tt;
  grant = λ ttl. pure 5;
  keep_alive = λ lease. pure tt;
  put = λ k v lease c. (ok tt, v ∷ c);
  get_prefix = λ prefix c. (ok c, c);
  delete = λ k. pure tt;
  close = pure tt;
}

abbrev reads_gate : List ℕ → Option Member
reads_gate v = some (own_member gate_node)

abbrev before_load : Etcd (List (List ℕ))
before_load = record { client = []; discovery = pre_init; ttl = 0; lease_id = 0 }

abbrev marshals : Member → Result (List ℕ)
marshals m = ok (1 ∷ [])
