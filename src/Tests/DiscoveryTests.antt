-- ===== src/Tests/DiscoveryTests.antt =====
-- Runs of framework/pkg/discovery and of framework/util.
use mathlib.Core.List.{Memᴰ}
use xgame.Common.{
  ℕ, List, arith, Option, eq_iff, ◌≡◌, ◌≢◌, ◌↔◌, refl, none, some, [], ◌∷◌, string_eq,
}
use xgame.Go.Fmt.{sprintf}
use xgame.Discovery.Etcd.{key_prefix, node_of_key}
use xgame.Common.Map.{get, put, empty}
use xgame.Pb.{Member}
use xgame.Discovery.{
  Discovery, pre_init, add_member, remove_member, list_by_type, added, removed, on_add_member,
  on_remove_member,
}
use xgame.Discovery.Members.{
  IsKeyed, IsShown, pre_init-IsKeyed, add_member-IsKeyed, list_by_type_iff,
}

abbrev pub gate : Member
gate = record { node_id = "gate1"; node_type = "gate"; address = "127.0.0.1:9000" }

abbrev pub game : Member
game = record { node_id = "game1"; node_type = "game"; address = "127.0.0.1:9001" }

abbrev pub cluster : Discovery
cluster = add_member game (add_member gate pre_init)

pub cluster-IsKeyed : IsKeyed cluster
cluster-IsKeyed =
    add_member-IsKeyed game (add_member gate pre_init)
      (add_member-IsKeyed gate pre_init pre_init-IsKeyed)

-- Each listener hears of its own changes only, with the member that came or went.
listeners :
    (remove_member "gate1" (
      add_member game
        (add_member gate (on_remove_member (some 2) (on_add_member (some 1) pre_init))))).calls
    ≡ added 1 gate ∷ added 1 game ∷ removed 2 gate ∷ []
unfolding remove_member add_member on_add_member on_remove_member get put empty
listeners = refl

list_by_type_iff_example :
    Memᴰ game (list_by_type cluster "game" ("gate1" ∷ []))
    ↔ ((get cluster.member_map "game1" ≡ some game) × IsShown "game" ("gate1" ∷ []) game)
list_by_type_iff_example = list_by_type_iff cluster "game" ("gate1" ∷ []) game cluster-IsKeyed

-- A node's value is its id alone, a list of one number in these tests.
abbrev pub parse : List ℕ → Option Member
parse [] = none
parse (b ∷ []) = some gate
parse (b ∷ c ∷ rest) = none

pub prefix_named : key_prefix "xgame" ≢ ""
unfolding key_prefix sprintf
prefix_named = λ h. ground (arith, eq_iff "/xgame/node/" "", h)

pub id_clean : node_of_key (key_prefix "xgame") "gate1" ≡ "gate1"
unfolding key_prefix sprintf node_of_key
id_clean = refl
