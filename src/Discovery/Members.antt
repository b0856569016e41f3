-- ===== src/Discovery/Members.antt =====
-- What discovery.go lists and picks, against what is stored.
use mathlib.Core.List.{Memᴰ}
use xgame.Common.{
  ℕ, zero, suc, ◌<◌, ◌≡◌, ◌≢◌, ◌↔◌, refl, sym, ap, subst, none, some, String, List, [], ◌∷◌, length,
  string_eq, ◌==◌, arith, eq_iff, Bool-cases, Option-cases, inl, inr, ◌⊎◌, ◌∙◌,
}
use xgame.Common.Map
use xgame.Common.Map.{Map, get-put, get-remove, get-empty}
use xgame.Common.Map.Entries.{
  IsDistinct, empty-IsDistinct, put-IsDistinct, remove-IsDistinct, Memᴰ-get, get-Memᴰ,
}
use xgame.Pb.{Member}
use xgame.Util.{string_in, string_in_iff}
use xgame.Discovery.{
  Discovery, pre_init, keep, list_from, list_by_type, add_member, add_found, remove_member,
  remove_found, random, pick_member, get_elem?,
}

-- Each member is stored under its own id.
pub record IsKeyed (n : Discovery) : Type 0 where
  pub own_id : (id : String) (m : Member) → Map.get n.member_map id ≡ some m → m.node_id ≡ id
  pub distinct : IsDistinct n.member_map

pub pre_init-IsKeyed : IsKeyed pre_init
pre_init-IsKeyed = record {
  own_id = λ id m h. cc (get-empty {V = Member} id);
  distinct = empty-IsDistinct;
}

-- AddMember of a new or a known node id keeps every member stored under its own id, and every id
-- once.
pub add_member-IsKeyed : (m : Member) (n : Discovery) → IsKeyed n → IsKeyed (add_member m n)
unfolding add_member
add_member-IsKeyed m n k = elim (Option-cases (Map.get n.member_map m.node_id)) [
  | inl fresh ↦
      rw (fresh, add_found)
        (record {
          own_id = λ id x. simp get-put (ground (arith, k.own_id id x, eq_iff m.node_id id));
          distinct = put-IsDistinct n.member_map m.node_id m k.distinct;
        })
  | inr (old, known) ↦ rw (known, add_found) k
]

-- RemoveMember of a stored or an unknown node id keeps every member stored under its own id, and
-- every id once.
pub remove_member-IsKeyed : (id : String) (n : Discovery) → IsKeyed n → IsKeyed (remove_member id n)
unfolding remove_member
remove_member-IsKeyed id n k = elim (Option-cases (Map.get n.member_map id)) [
  | inl absent ↦ rw (absent, remove_found) k
  | inr (old, known) ↦
      rw (known, remove_found)
        (record {
          own_id = λ j x. simp get-remove (ground (arith, k.own_id j x));
          distinct = remove-IsDistinct n.member_map id k.distinct;
        })
]

-- What ListByType shows of an entry.
abbrev pub IsShown : String → List String → Member → Type 0
IsShown typ hidden m = (m.node_type ≡ typ) × (Memᴰ m.node_id hidden → ⊥)

keep_cases :
    (typ : String) (hidden : List String) (m : Member) (others : List Member)
    → (IsShown typ hidden m × (keep typ hidden m others ≡ m ∷ others))
      ⊎ ((IsShown typ hidden m → ⊥) × (keep typ hidden m others ≡ others))
unfolding keep
keep_cases typ hidden m others = elim (Bool-cases (m.node_type == typ)) [
  | inl same ↦ elim (Bool-cases (string_in m.node_id hidden).1) [
    | inl named ↦ rw (same, named) (inr (λ h. h.1 ((string_in_iff m.node_id hidden).0 named), refl))
    | inr unnamed ↦
        rw (same, unnamed)
          (inl (
            (
              (eq_iff m.node_type typ).0 same,
              λ mem. cc ((string_in_iff m.node_id hidden).1 mem, unnamed),
            ),
            refl,
          ))
  ]
  | inr other ↦ rw other (inr (λ h. cc ((eq_iff m.node_type typ).1 h.0), refl))
]

Memᴰ-list_from :
    (typ : String) (hidden : List String) (l : List (String × Member)) (k : String) (m : Member)
    → Memᴰ (k, m) l
    → IsShown typ hidden m
    → Memᴰ m (list_from typ hidden l)
unfolding list_from
Memᴰ-list_from typ hidden [] k m h s = elim h [ ]
Memᴰ-list_from typ hidden ((j, x) ∷ l) k m (Memᴰ.head q) s =
    let here = ap (λ (z : String × Member). z.1) q in
    elim (keep_cases typ hidden x (list_from typ hidden l)) [
      | inl (_, e) ↦ rw (e) (Memᴰ.head here)
      | inr (no_show, e) ↦ absurd (no_show (subst (IsShown typ hidden) here s))
    ]
Memᴰ-list_from typ hidden ((j, x) ∷ l) k m (Memᴰ.tail h) s =
    let rest = Memᴰ-list_from typ hidden l k m h s in
    elim (keep_cases typ hidden x (list_from typ hidden l)) [
      | inl (_, e) ↦ rw e (Memᴰ.tail rest)
      | inr (_, e) ↦ rw e rest
    ]

at_head :
    (typ : String) (hidden : List String) (j : String) (x m : Member) (l : List (String × Member))
    (others : List Member)
    → IsShown typ hidden x
    → Memᴰ m (x ∷ others)
    → (Memᴰ m others → (k : String) × Memᴰ (k, m) l × IsShown typ hidden m)
    → (k : String) × Memᴰ (k, m) ((j, x) ∷ l) × IsShown typ hidden m
at_head typ hidden j x m l others s (Memᴰ.head q) rest =
    (j, Memᴰ.head (ap (λ z. (j, z)) q), subst (IsShown typ hidden) (sym q) s)
at_head typ hidden j x m l others s (Memᴰ.tail h) rest =
    let (k, mem, shown) = rest h in (k, Memᴰ.tail mem, shown)

list_from-Memᴰ :
    (typ : String) (hidden : List String) (l : List (String × Member)) (m : Member)
    → Memᴰ m (list_from typ hidden l)
    → (k : String) × Memᴰ (k, m) l × IsShown typ hidden m
unfolding list_from
list_from-Memᴰ typ hidden [] m h = elim h [ ]
list_from-Memᴰ typ hidden ((j, x) ∷ l) m h =
    let others = list_from typ hidden l in
    elim (keep_cases typ hidden x others) [
      | inl (s, e) ↦ at_head typ hidden j x m l others s (rw e at h) (list_from-Memᴰ typ hidden l m)
      | inr (_, e) ↦
          let (k, mem, shown) = list_from-Memᴰ typ hidden l m (rw e at h) in
          (k, Memᴰ.tail mem, shown)
    ]

by_own_id :
    (n : Discovery)
    → IsKeyed n
    → (id : String) (m : Member) → Map.get n.member_map id ≡ some m
    → Map.get n.member_map m.node_id ≡ some m
by_own_id n k id m stored = ap (Map.get n.member_map) (k.own_id id m stored) ∙ stored

-- When every member is stored under its own id, ListByType lists exactly the stored members of the
-- type whose ids the filter does not name.
pub list_by_type_iff :
    (n : Discovery) (typ : String) (hidden : List String) (m : Member)
    → IsKeyed n
    → Memᴰ m (list_by_type n typ hidden)
      ↔ ((Map.get n.member_map m.node_id ≡ some m) × IsShown typ hidden m)
unfolding list_by_type
list_by_type_iff n typ hidden m k = (
  λ h.
      let (id, mem, shown) = list_from-Memᴰ typ hidden (Map.entries n.member_map) m h in
      let stored = get-Memᴰ n.member_map id m k.distinct mem in (by_own_id n k id m stored, shown),
  λ h.
      Memᴰ-list_from typ hidden (Map.entries n.member_map) m.node_id m
        (Memᴰ-get n.member_map m.node_id m h.0) h.1,
)

get_elem?-Memᴰ {ℓ} :
    {A : Type ℓ} (xs : List A) (i : ℕ)
    → i < length xs
    → (x : A) × (get_elem? xs i ≡ some x) × Memᴰ x xs
get_elem?-Memᴰ [] i h = absurd (omega arith)
get_elem?-Memᴰ (x ∷ xs) zero h = (x, refl, Memᴰ.head refl)
get_elem?-Memᴰ (x ∷ xs) (suc i) h =
    let (y, e, m) = get_elem?-Memᴰ xs i (omega arith) in (y, e, Memᴰ.tail m)

pick_member-Memᴰ :
    (intn : ℕ → ℕ) (ms : List Member)
    → ((k : ℕ) → 0 < k → intn k < k)
    → ((ms ≡ []) × (pick_member intn ms ≡ none))
      ⊎ ((m : Member) × (pick_member intn ms ≡ some m) × Memᴰ m ms)
unfolding pick_member
pick_member-Memᴰ intn [] h = inl (refl, refl)
pick_member-Memᴰ intn (m ∷ []) h = inr (m, refl, Memᴰ.head refl)
pick_member-Memᴰ intn (m ∷ m' ∷ rest) h =
    inr (get_elem?-Memᴰ (m ∷ m' ∷ rest) (intn (length (m ∷ m' ∷ rest))) (h _ (omega arith)))

not_Memᴰ-nil : (m : Member) → ¬ Memᴰ m []
not_Memᴰ-nil m h = elim h [ ]

-- When every member is stored under its own id, and rand.Intn(k) answers below k, Random finds a
-- stored member of the type, or it finds none and no stored member has the type.
pub random_sound :
    (intn : ℕ → ℕ) (n : Discovery) (typ : String)
    → ((k : ℕ) → 0 < k → intn k < k)
    → IsKeyed n
    → ((m : Member) × (random intn n typ ≡ some m)
        × (Map.get n.member_map m.node_id ≡ some m)
        × (m.node_type ≡ typ))
      ⊎ ((random intn n typ ≡ none)
          × ((id : String) (m : Member) → Map.get n.member_map id ≡ some m → m.node_type ≢ typ))
unfolding random
random_sound intn n typ h k = elim (pick_member-Memᴰ intn (list_by_type n typ []) h) [
  | inl (e, f) ↦ inr (
    f,
    λ id m stored t. not_Memᴰ-nil m (
        subst (Memᴰ m) e (
          (list_by_type_iff n typ [] m k).1 (by_own_id n k id m stored, (t, λ mem. elim mem [ ])))),
  )
  | inr (m, f, mem) ↦
      let (stored, shown) = (list_by_type_iff n typ [] m k).0 mem in inl (m, f, stored, shown.0)
]
