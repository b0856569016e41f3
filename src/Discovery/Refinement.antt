-- ===== src/Discovery/Refinement.antt =====
-- discovery.go against its specification, over any sequence of calls: a function from node ids to members.
pub mod Listener
use xgame.Common.{
  ℕ, ◌≡◌, refl, sym, ◌∙◌, ap, Bool, true, false, ◌&&◌, ◌||◌, Option, none, some, Option-cases, inl,
  inr, String, List, [], ◌∷◌, ◌++◌, map, string_eq, ◌==◌, if◌then◌else◌, nat_eq, eq_iff, arith,
}
use xgame.Common.Map
use xgame.Common.Map.{get-empty, get-put, get-remove}
use xgame.Pb.{Member}
use xgame.Discovery.{
  Discovery, Call, added, removed, pre_init, add_member, add_found, remove_member, remove_found,
  on_add_member, on_remove_member,
}
use xgame.Discovery.Members.{IsKeyed, pre_init-IsKeyed, add_member-IsKeyed, remove_member-IsKeyed}

-- The calls that change the state.
pub data Op : Type 0 where
  add : Member → Op
  remove : String → Op
  listen_add : Option ℕ → Op
  listen_remove : Option ℕ → Op

abbrev pub step : Op → Discovery → Discovery
step (add m) n = add_member m n
step (remove id) n = remove_member id n
step (listen_add l) n = on_add_member l n
step (listen_remove l) n = on_remove_member l n

unfoldable pub run : List Op → Discovery → Discovery
run [] n = n
run (x ∷ xs) n = run xs (step x n)

-- The specification at one node id: the first member that comes stays until it is removed.
abbrev pub first : Option Member → Member → Option Member
first (some old) m = some old
first none m = some m

abbrev pub replay_step : String → Op → Option Member → Option Member
replay_step id (add m) o = if m.node_id == id then first o m else o
replay_step id (remove k) o = if k == id then none else o
replay_step id (listen_add l) o = o
replay_step id (listen_remove l) o = o

unfoldable pub replay : String → List Op → Option Member → Option Member
replay id [] o = o
replay id (x ∷ xs) o = replay id xs (replay_step id x o)

same_entry :
    (n : Discovery) (k id : String)
    → (k == id) ≡ true
    → Map.get n.member_map k ≡ Map.get n.member_map id
same_entry n k id e = ap (Map.get n.member_map) ((eq_iff k id).0 e)

get-step :
    (id : String) (x : Op) (n : Discovery)
    → Map.get (step x n).member_map id ≡ replay_step id x (Map.get n.member_map id)
unfolding add_member remove_member on_add_member on_remove_member
get-step id (add m) n = elim (Option-cases (Map.get n.member_map m.node_id)) [
  | inl fresh ↦
      rw (fresh, add_found)
        (get-put n.member_map m.node_id id m ∙ ground (arith, fresh, same_entry n m.node_id id))
  | inr (old, known) ↦ rw (known, add_found) (ground (arith, known, same_entry n m.node_id id))
]
get-step id (remove k) n = elim (Option-cases (Map.get n.member_map k)) [
  | inl absent ↦ rw (absent, remove_found) (ground (arith, absent, eq_iff k id))
  | inr (m, known) ↦ rw (known, remove_found) (get-remove n.member_map k id)
]
get-step id (listen_add none) n = refl
get-step id (listen_add (some l)) n = refl
get-step id (listen_remove none) n = refl
get-step id (listen_remove (some l)) n = refl

get-run :
    (id : String) (xs : List Op) (n : Discovery)
    → Map.get (run xs n).member_map id ≡ replay id xs (Map.get n.member_map id)
unfolding run replay
get-run id [] n = refl
get-run id (x ∷ xs) n = get-run id xs (step x n) ∙ ap (replay id xs) (get-step id x n)

step-IsKeyed : (x : Op) (n : Discovery) → IsKeyed n → IsKeyed (step x n)
unfolding on_add_member on_remove_member
step-IsKeyed (add m) n k = add_member-IsKeyed m n k
step-IsKeyed (remove id) n k = remove_member-IsKeyed id n k
step-IsKeyed (listen_add none) n k = k
step-IsKeyed (listen_add (some l)) n k = record { own_id = k.own_id; distinct = k.distinct }
step-IsKeyed (listen_remove none) n k = k
step-IsKeyed (listen_remove (some l)) n k = record { own_id = k.own_id; distinct = k.distinct }

run-IsKeyed : (xs : List Op) (n : Discovery) → IsKeyed n → IsKeyed (run xs n)
unfolding run
run-IsKeyed [] n k = k
run-IsKeyed (x ∷ xs) n k = run-IsKeyed xs (step x n) (step-IsKeyed x n k)

-- After PreInit and any calls of AddMember, RemoveMember, OnAddMember and OnRemoveMember, in any order, every
-- member is stored under its own id, every id once, and the member under each id is that of the specification:
-- the first one that was added since the id was last removed.
pub run_refines :
    (xs : List Op) (id : String)
    → IsKeyed (run xs pre_init) × (Map.get (run xs pre_init).member_map id ≡ replay id xs none)
run_refines xs id = (
  run-IsKeyed xs pre_init pre_init-IsKeyed,
  get-run id xs pre_init ∙ ap (replay id xs) (get-empty {V = Member} id),
)
