-- ===== src/Discovery/Refinement/Listener.antt =====
-- What a listener of discovery.go can put together from the calls that it gets.
use xgame.Common.{
  ℕ, ◌≡◌, refl, sym, ◌∙◌, ap, Bool, true, false, ◌&&◌, ◌||◌, Option, none, some, Option-cases, inl,
  inr, String, List, [], ◌∷◌, ◌++◌, map, string_eq, ◌==◌, if◌then◌else◌, nat_eq, arith,
}
use xgame.Common.Map
use xgame.Common.Map.{get-empty, get-put, get-remove}
use xgame.Pb.{Member}
use xgame.Discovery.{
  Discovery, Call, added, removed, pre_init, add_member, add_found, remove_member, remove_found,
  on_add_member, on_remove_member,
}
use xgame.Discovery.Members.{IsKeyed, pre_init-IsKeyed, add_member-IsKeyed, remove_member-IsKeyed}
use xgame.Discovery.Refinement.{Op, add, remove, listen_add, listen_remove, step, run}

-- What listener `l` puts together about a node id from its calls.
abbrev pub heard : ℕ → String → List Call → Option Member → Option Member
heard l id [] o = o
heard l id (added j m ∷ cs) o = heard l id cs (if nat_eq j l && m.node_id == id then some m else o)
heard l id (removed j m ∷ cs) o = heard l id cs (if nat_eq j l && m.node_id == id then none else o)

abbrev pub hears : ℕ → List ℕ → Bool
hears l [] = false
hears l (j ∷ js) = nat_eq j l || hears l js

heard-append :
    (l : ℕ) (id : String) (cs ds : List Call) (o : Option Member)
    → heard l id (cs ++ ds) o ≡ heard l id ds (heard l id cs o)
heard-append l id [] ds o = refl
heard-append l id (added j m ∷ cs) ds o = heard-append l id cs ds _
heard-append l id (removed j m ∷ cs) ds o = heard-append l id cs ds _

heard-added :
    (l : ℕ) (id : String) (m : Member) (js : List ℕ) (o : Option Member)
    → heard l id (map (λ j. added j m) js) o ≡ (if hears l js && m.node_id == id then some m else o)
heard-added l id m [] o = refl
heard-added l id m (j ∷ js) o =
    heard-added l id m js (if nat_eq j l && m.node_id == id then some m else o) ∙ ground arith

heard-removed :
    (l : ℕ) (id : String) (m : Member) (js : List ℕ) (o : Option Member)
    → heard l id (map (λ j. removed j m) js) o ≡ (if hears l js && m.node_id == id then none else o)
heard-removed l id m [] o = refl
heard-removed l id m (j ∷ js) o =
    heard-removed l id m js (if nat_eq j l && m.node_id == id then none else o) ∙ ground arith

hears-append : (l : ℕ) (js ks : List ℕ) → hears l js ≡ true → hears l (js ++ ks) ≡ true
hears-append l [] ks h = cc
hears-append l (j ∷ js) ks h = ground (arith, hears-append l js ks)

-- A listener of both kinds that has heard of everything.
record IsInformed (l : ℕ) (n : Discovery) : Type 0 where
  keyed : IsKeyed n
  hears_add : hears l n.on_add_listener ≡ true
  hears_remove : hears l n.on_remove_listener ≡ true
  told : (id : String) → heard l id n.calls none ≡ Map.get n.member_map id

add-IsInformed :
    (l : ℕ) (m : Member) (n : Discovery) → IsInformed l n → IsInformed l (add_member m n)
unfolding add_member
add-IsInformed l m n k = elim (Option-cases (Map.get n.member_map m.node_id)) [
  | inr (old, known) ↦ rw (known, add_found) k
  | inl fresh ↦
      let keyed = rw (fresh, add_found) at (add_member-IsKeyed m n k.keyed) in
      rw (fresh, add_found)
        (record {
          keyed = keyed;
          hears_add = k.hears_add;
          hears_remove = k.hears_remove;
          told = λ id.
              heard-append l id n.calls (map (λ j. added j m) n.on_add_listener) none
              ∙ heard-added l id m n.on_add_listener (heard l id n.calls none)
              ∙ ground (arith, k.hears_add, k.told id)
              ∙ sym (get-put n.member_map m.node_id id m);
        })
]

remove-IsInformed :
    (l : ℕ) (i : String) (n : Discovery) → IsInformed l n → IsInformed l (remove_member i n)
unfolding remove_member
remove-IsInformed l i n k = elim (Option-cases (Map.get n.member_map i)) [
  | inl absent ↦ rw (absent, remove_found) k
  | inr (m, known) ↦
      let keyed = rw (known, remove_found) at (remove_member-IsKeyed i n k.keyed) in
      rw (known, remove_found)
        (record {
          keyed = keyed;
          hears_add = k.hears_add;
          hears_remove = k.hears_remove;
          told = λ id.
              heard-append l id n.calls (map (λ j. removed j m) n.on_remove_listener) none
              ∙ heard-removed l id m n.on_remove_listener (heard l id n.calls none)
              ∙ ground
                  (arith, k.hears_remove, k.told id, ap (λ z. z == id) (k.keyed.own_id i m known))
              ∙ sym (get-remove n.member_map i id);
        })
]

step-IsInformed : (l : ℕ) (x : Op) (n : Discovery) → IsInformed l n → IsInformed l (step x n)
unfolding on_add_member on_remove_member
step-IsInformed l (add m) n k = add-IsInformed l m n k
step-IsInformed l (remove id) n k = remove-IsInformed l id n k
step-IsInformed l (listen_add none) n k = k
step-IsInformed l (listen_add (some j)) n k = record {
  keyed = record { own_id = k.keyed.own_id; distinct = k.keyed.distinct };
  hears_add = hears-append l n.on_add_listener (j ∷ []) k.hears_add;
  hears_remove = k.hears_remove;
  told = k.told;
}
step-IsInformed l (listen_remove none) n k = k
step-IsInformed l (listen_remove (some j)) n k = record {
  keyed = record { own_id = k.keyed.own_id; distinct = k.keyed.distinct };
  hears_add = k.hears_add;
  hears_remove = hears-append l n.on_remove_listener (j ∷ []) k.hears_remove;
  told = k.told;
}

run-IsInformed : (l : ℕ) (xs : List Op) (n : Discovery) → IsInformed l n → IsInformed l (run xs n)
unfolding run
run-IsInformed l [] n k = k
run-IsInformed l (x ∷ xs) n k = run-IsInformed l xs (step x n) (step-IsInformed l x n k)

-- The discovery after PreInit and the registration of one listener for both kinds of changes.
abbrev pub watched_by : ℕ → Discovery
watched_by l = on_remove_member (some l) (on_add_member (some l) pre_init)

watched-IsInformed : (l : ℕ) → IsInformed l (watched_by l)
unfolding on_add_member on_remove_member
watched-IsInformed l = record {
  keyed = record { own_id = pre_init-IsKeyed.own_id; distinct = pre_init-IsKeyed.distinct };
  hears_add = ground arith;
  hears_remove = ground arith;
  told = λ id. sym (get-empty {V = Member} id);
}

-- A listener that is registered for both kinds of changes before any member comes can put the members together
-- from its calls alone: after any calls, for every node id, the last call that named the id gives the member
-- that is stored under it, or that there is none.
pub listener_view :
    (l : ℕ) (xs : List Op) (id : String)
    → heard l id (run xs (watched_by l)).calls none ≡ Map.get (run xs (watched_by l)).member_map id
listener_view l xs id = (run-IsInformed l xs (watched_by l) (watched-IsInformed l)).told id
