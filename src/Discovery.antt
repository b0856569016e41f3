-- ===== src/Discovery.antt =====
-- framework/pkg/discovery/discovery.go and load_balance.go: the members of the cluster by node id, and the
-- functions that hear of changes. A listener is known by a number, and each call of one is recorded; the
-- listeners of the repository do not call back into the discovery.
pub mod Members
pub mod Etcd
pub mod Refinement
pub mod Snapshot
use xgame.Common.{
  ℕ, zero, suc, ◌≡◌, Bool, true, false, not, Option, none, some, String, List, [], ◌∷◌, ◌++◌, map,
  length, string_eq, ◌==◌, if◌then◌else◌,
}
use xgame.Common.Map
use xgame.Common.Map.{Map}
use xgame.Go.{Result, ok, err}
use xgame.Go.Errors.{errorf}
use xgame.Go.Fmt.{text, sprintf}
use xgame.Pb.{Member}
use xgame.Util.{string_in}

pub data Call : Type 0 where
  added : ℕ → Member → Call
  removed : ℕ → Member → Call

pub record Discovery : Type 0 where
  pub member_map : Map String Member
  pub on_add_listener : List ℕ
  pub on_remove_listener : List ℕ
  pub calls : List Call  -- the calls of listeners, oldest first

-- The zero value, after PreInit.
abbrev pub pre_init : Discovery
pre_init = record {
  member_map = Map.empty;
  on_add_listener = [];
  on_remove_listener = [];
  calls = [];
}

by_node_id : List (String × Member) → Map String Member
by_node_id [] = Map.empty
by_node_id ((k, m) ∷ rest) = Map.put (by_node_id rest) m.node_id m

-- Map: a copy, keyed by the id that each member gives. The entries are taken from the last to the first.
unfoldable pub members : Discovery → Map String Member
unfolding by_node_id
members n = by_node_id (Map.entries n.member_map)

-- The two tests on one entry.
keep : String → List String → Member → List Member → List Member
keep typ hidden m others =
    if m.node_type == typ
    then (if not (string_in m.node_id hidden).1 then m ∷ others else others)
    else others

list_from : String → List String → List (String × Member) → List Member
unfolding keep
list_from typ hidden [] = []
list_from typ hidden ((k, m) ∷ rest) = keep typ hidden m (list_from typ hidden rest)

-- ListByType
unfoldable pub list_by_type : Discovery → String → List String → List Member
unfolding list_from
list_by_type n typ hidden = list_from typ hidden (Map.entries n.member_map)

-- GetMember
unfoldable pub get_member : Discovery → String → Option Member
get_member n id = if id == "" then none else Map.get n.member_map id

unfoldable pub type_of_found : String → Option Member → Result String
type_of_found id none = err (errorf "nodeId = %s not found." (text id ∷ []))
type_of_found id (some m) = ok m.node_type

-- GetType
unfoldable pub get_type : Discovery → String → Result String
unfolding type_of_found
get_type n id = type_of_found id (get_member n id)

add_found : Option Member → Member → Discovery → Discovery
add_found (some old) m n = n
add_found none m n = record n {
  member_map = Map.put n.member_map m.node_id m;
  calls = n.calls ++ map (λ l. added l m) n.on_add_listener;
}

-- AddMember: LoadOrStore, and the listeners
unfoldable pub add_member : Member → Discovery → Discovery
unfolding add_found
add_member m n = add_found (Map.get n.member_map m.node_id) m n

remove_found : Option Member → String → Discovery → Discovery
remove_found none id n = n
remove_found (some m) id n = record n {
  member_map = Map.remove n.member_map id;
  calls = n.calls ++ map (λ l. removed l m) n.on_remove_listener;
}

-- RemoveMember: LoadAndDelete, and the listeners
unfoldable pub remove_member : String → Discovery → Discovery
unfolding remove_found
remove_member id n = remove_found (Map.get n.member_map id) id n

-- OnAddMember and OnRemoveMember; `none` is the nil function.
unfoldable pub on_add_member : Option ℕ → Discovery → Discovery
on_add_member none n = n
on_add_member (some l) n = record n { on_add_listener = n.on_add_listener ++ l ∷ [] }

unfoldable pub on_remove_member : Option ℕ → Discovery → Discovery
on_remove_member none n = n
on_remove_member (some l) n = record n { on_remove_listener = n.on_remove_listener ++ l ∷ [] }

-- memberList[i]
abbrev pub get_elem? {ℓ} : {A : Type ℓ} → List A → ℕ → Option A
get_elem? [] i = none
get_elem? (x ∷ xs) zero = some x
get_elem? (x ∷ xs) (suc i) = get_elem? xs i

pick_member : (ℕ → ℕ) → List Member → Option Member
pick_member intn [] = none
pick_member intn (m ∷ []) = some m
pick_member intn (m ∷ m' ∷ rest) = get_elem? (m ∷ m' ∷ rest) (intn (length (m ∷ m' ∷ rest)))

-- Random, with the answer of rand.Intn. An index out of range, which rand.Intn never gives, is `none` too.
unfoldable pub random : (ℕ → ℕ) → Discovery → String → Option Member
unfolding pick_member
random intn n typ = pick_member intn (list_by_type n typ [])
