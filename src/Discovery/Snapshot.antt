-- ===== src/Discovery/Snapshot.antt =====
-- The copy that Map of discovery.go makes, against the members themselves.
use mathlib.Core.List.{Memᴰ}
use xgame.Common.{
  false, ◌≡◌, ◌≢◌, sym, ◌∙◌, ap, none, some, Option-cases, Bool-cases, inl, inr, String, List, [],
  ◌∷◌, string_eq, ◌==◌, eq_iff, arith,
}
use xgame.Common.Map
use xgame.Common.Map.{get-empty, get-put}
use xgame.Common.Map.Entries.{Memᴰ-get, get-Memᴰ}
use xgame.Pb.{Member}
use xgame.Discovery.{Discovery, by_node_id, members}
use xgame.Discovery.Members.{IsKeyed}

found_entry :
    (l : List (String × Member)) (id : String) (m : Member)
    → Map.get (by_node_id l) id ≡ some m
    → (k : String) × Memᴰ (k, m) l × (m.node_id ≡ id)
unfolding by_node_id
found_entry [] id m h = cc (get-empty {V = Member} id)
found_entry ((k, x) ∷ l) id m h = elim (Bool-cases (x.node_id == id)) [
  | inl same ↦
      let q : x ≡ m = ground (arith, rw same at (simp get-put at h)) in
      (
        k,
        Memᴰ.head (ap (λ z. (k, z)) (sym q)),
        ap (λ (z : Member). z.node_id) (sym q) ∙ (eq_iff x.node_id id).0 same,
      )
  | inr other ↦
      let (j, mem, named) = found_entry l id m (rw other at (simp get-put at h)) in
      (j, Memᴰ.tail mem, named)
]

lost_behind :
    (l : List (String × Member)) (id j k : String) (x m : Member)
    → (Memᴰ (k, m) l → m.node_id ≢ id)
    → (x.node_id == id) ≡ false
    → Memᴰ (k, m) ((j, x) ∷ l)
    → m.node_id ≢ id
lost_behind l id j k x m rest other (Memᴰ.tail mem) = rest mem
lost_behind l id j k x m rest other (Memᴰ.head q) =
    λ e. ground (arith, other, ap (λ (z : String × Member). z.1.node_id) q, e, eq_iff x.node_id id)

lost_entry :
    (l : List (String × Member)) (id k : String) (m : Member)
    → Map.get (by_node_id l) id ≡ none
    → Memᴰ (k, m) l
    → m.node_id ≢ id
unfolding by_node_id
lost_entry [] id k m h mem = elim mem [ ]
lost_entry ((j, x) ∷ l) id k m h mem = elim (Bool-cases (x.node_id == id)) [
  | inl same ↦ absurd (cc (rw same at (simp get-put at h)))
  | inr other ↦
      lost_behind l id j k x m (lost_entry l id k m (rw other at (simp get-put at h))) other mem
]

-- When every member is stored under its own id, the map that Map returns has the same member under each id as
-- the members themselves, whatever order they are visited in.
pub get-members :
    (n : Discovery) (id : String) → IsKeyed n → Map.get (members n) id ≡ Map.get n.member_map id
unfolding members
get-members n id k = elim (Option-cases (Map.get (by_node_id (Map.entries n.member_map)) id)) [
  | inr (m, found) ↦
      let (j, mem, named) = found_entry (Map.entries n.member_map) id m found in
      let stored = get-Memᴰ n.member_map j m k.distinct mem in
      found ∙ sym stored ∙ ap (Map.get n.member_map) (sym (k.own_id j m stored) ∙ named)
  | inl lost ↦ elim (Option-cases (Map.get n.member_map id)) [
    | inl absent ↦ lost ∙ sym absent
    | inr (m, stored) ↦ absurd (
        lost_entry (Map.entries n.member_map) id id m lost (Memᴰ-get n.member_map id m stored)
          (k.own_id id m stored))
  ]
]
