-- ===== src/Common/Map/Entries.antt =====
-- What a `range` over a map visits: each key once, with its value.
use mathlib.Core.Path.{◌≡◌, ap}
use mathlib.Core.Option.{none, some}
use mathlib.Core.List.{List, [], ◌∷◌, Memᴰ}
use native.Mathlib.Omega.{arith}
use xgame.Common.Tests.{Eq, ◌==◌, Bool-cases}
use mathlib.Core.Logic.{inl, inr}
use xgame.Common.Map.{Map, lookup, unset, get, put, remove, entries, empty, lookup-unset}

module _ {ℓ κ} {K : Type ℓ} {V : Type κ} ⦃e : Eq K⦄ where
  -- No key stands twice.
  DistinctKeys : List (K × V) → Type κ
  DistinctKeys [] = Unit
  DistinctKeys ((k, v) ∷ l) = (lookup k l ≡ none) × DistinctKeys l

  pub record IsDistinct (m : Map K V) : Type κ where
    keys : DistinctKeys m.list

  pub empty-IsDistinct : IsDistinct (empty {K = K} {V = V})
  unfolding DistinctKeys empty
  empty-IsDistinct = record { keys = tt }

  unset-DistinctKeys : (k : K) (l : List (K × V)) → DistinctKeys l → DistinctKeys (unset k l)
  unfolding DistinctKeys unset
  unset-DistinctKeys k [] d = tt
  unset-DistinctKeys k ((j, v) ∷ l) d = elim (Bool-cases (j == k)) [
    | inl same ↦ rw same (unset-DistinctKeys k l d.1)
    | inr other ↦
        rw other
          (ground (arith, lookup-unset k j l, d.0, e.equal_iff k j), unset-DistinctKeys k l d.1)
  ]

  pub put-IsDistinct : (m : Map K V) (k : K) (v : V) → IsDistinct m → IsDistinct (put m k v)
  unfolding put DistinctKeys
  put-IsDistinct m k v d = record {
    keys = (
      ground (arith, lookup-unset k k m.list, e.equal_iff k k),
      unset-DistinctKeys k m.list d.keys,
    );
  }

  pub remove-IsDistinct : (m : Map K V) (k : K) → IsDistinct m → IsDistinct (remove m k)
  unfolding remove
  remove-IsDistinct m k d = record { keys = unset-DistinctKeys k m.list d.keys }

  Memᴰ-lookup : (k : K) (v : V) (l : List (K × V)) → lookup k l ≡ some v → Memᴰ (k, v) l
  unfolding lookup
  Memᴰ-lookup k v [] h = cc
  Memᴰ-lookup k v ((j, w) ∷ l) h = elim (Bool-cases (j == k)) [
    | inl same ↦ Memᴰ.head (ground (arith, rw same at h, e.equal_iff j k))
    | inr other ↦ Memᴰ.tail (Memᴰ-lookup k v l (rw other at h))
  ]

  -- A `range` visits what the map holds.
  pub Memᴰ-get : (m : Map K V) (k : K) (v : V) → get m k ≡ some v → Memᴰ (k, v) (entries m)
  unfolding get entries
  Memᴰ-get m k v h = Memᴰ-lookup k v m.list h

  lookup-Memᴰ :
      (k : K) (v : V) (l : List (K × V)) → DistinctKeys l → Memᴰ (k, v) l → lookup k l ≡ some v
  unfolding lookup DistinctKeys
  lookup-Memᴰ k v [] d h = elim h [ ]
  lookup-Memᴰ k v ((j, w) ∷ l) d (Memᴰ.head q) =
      ground (arith, ap (λ (x : K × V). x.0) q, ap (λ (x : K × V). x.1) q, e.equal_iff j k)
  lookup-Memᴰ k v ((j, w) ∷ l) d (Memᴰ.tail h) =
      ground (arith, lookup-Memᴰ k v l d.1 h, d.0, e.equal_iff j k)

  -- What it visits, the map holds.
  pub get-Memᴰ :
      (m : Map K V) (k : K) (v : V) → IsDistinct m → Memᴰ (k, v) (entries m) → get m k ≡ some v
  unfolding get entries
  get-Memᴰ m k v d h = lookup-Memᴰ k v m.list d.keys h
