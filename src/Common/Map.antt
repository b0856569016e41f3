-- ===== src/Common/Map.antt =====
-- Go's built-in `map` and `sync.Map`: finite maps behind their laws. The order of the entries is an
-- accident of the representation, as the order of a Go `range` is unspecified.
pub mod Entries
use mathlib.Core.Path.{◌≡◌, refl}
use mathlib.Core.Option.{Option, none, some}
use mathlib.Core.List.{List, [], ◌∷◌}
use Prim.Native.Nat.{ℕ}
use native.Mathlib.Omega.{arith}
use xgame.Common.Tests.{Eq, ◌==◌, if◌then◌else◌}
use xgame.Common.Lists.{length}

pub record Map {ℓ κ} (K : Type ℓ) (V : Type κ) : Type (ℓ ⊔ κ) where
  list : List (K × V)

module _ {ℓ κ} {K : Type ℓ} {V : Type κ} where
  -- make(map[K]V)
  unfoldable pub empty : Map K V
  empty = record { list = [] }

  -- what a `range` visits
  unfoldable pub entries : Map K V → List (K × V)
  entries m = m.list

  -- len(m)
  unfoldable pub size : Map K V → ℕ
  unfolding entries
  size m = length (entries m)

module _ {ℓ κ} {K : Type ℓ} {V : Type κ} ⦃e : Eq K⦄ where
  lookup : K → List (K × V) → Option V
  lookup k [] = none
  lookup k ((j, v) ∷ l) = if j == k then some v else lookup k l

  unset : K → List (K × V) → List (K × V)
  unset k [] = []
  unset k ((j, v) ∷ l) = let rest = unset k l in if j == k then rest else (j, v) ∷ rest

  -- v, ok := m[k]
  unfoldable pub get : Map K V → K → Option V
  unfolding lookup
  get m k = lookup k m.list

  -- delete(m, k)
  unfoldable pub remove : Map K V → K → Map K V
  unfolding unset
  remove m k = record { list = unset k m.list }

  -- m[k] = v
  unfoldable pub put : Map K V → K → V → Map K V
  unfolding unset
  put m k v = record { list = (k, v) ∷ unset k m.list }

  lookup-unset :
      (k j : K) (l : List (K × V)) → lookup j (unset k l) ≡ (if k == j then none else lookup j l)
  unfolding lookup unset
  lookup-unset k j [] = ground arith
  lookup-unset k j ((x, w) ∷ l) =
      ground (arith, lookup-unset k j l, e.equal_iff k j, e.equal_iff x k, e.equal_iff x j)

  pub get-empty : (k : K) → get (empty {V = V}) k ≡ none
  unfolding get empty
  get-empty k = refl

  pub get-remove : (m : Map K V) (k j : K) → get (remove m k) j ≡ (if k == j then none else get m j)
  unfolding get remove
  get-remove m k j = lookup-unset k j m.list

  pub get-put :
      (m : Map K V) (k j : K) (v : V) → get (put m k v) j ≡ (if k == j then some v else get m j)
  unfolding get put
  get-put m k j v = ground (arith, lookup-unset k j m.list)

pub ruleset map_laws = (get-empty, get-remove, get-put)
