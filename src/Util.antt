-- ===== src/Util.antt =====
-- framework/util/util.go.
use mathlib.Core.List.{Memᴰ}
use xgame.Common.{
  ℕ, suc, ◌≡◌, ◌↔◌, refl, Bool, true, false, String, List, [], ◌∷◌, string_eq, ◌==◌, if◌then◌else◌,
  arith, eq_iff, Bool-cases, inl, inr,
}
use xgame.Go.{Result, ok, err, panic, Exec}

module _ {S : Type 0} where
  caught : (String → S → S) → Result (Unit {0}) × S → Bool × S
  caught catch (ok x, s) = (false, s)
  caught catch (err e, s) = (false, s)
  caught catch (panic m, s) = (true, catch m s)

  -- Try, over functions that change a state: `recover` hands the text of a panic to the catch function, and
  -- the result says if there was one. A function with no result cannot return an error.
  unfoldable pub try : Exec S (Unit {0}) → (String → S → S) → S → Bool × S
  unfolding caught
  try f catch s = caught catch (f s)

-- The loop of StringIn, from index `i`.
string_in_from : ℕ → String → List String → ℕ × Bool
string_in_from i v [] = (0, false)
string_in_from i v (w ∷ sl) = if w == v then (i, true) else string_in_from (suc i) v sl

-- StringIn
unfoldable pub string_in : String → List String → ℕ × Bool
unfolding string_in_from
string_in v sl = string_in_from 0 v sl

skip_head : (v w : String) (sl : List String) → (w == v) ≡ false → Memᴰ v (w ∷ sl) → Memᴰ v sl
skip_head v w sl other (Memᴰ.head q) = absurd (ground (arith, eq_iff w v, q))
skip_head v w sl other (Memᴰ.tail h) = h

string_in_from_iff :
    (i : ℕ) (v : String) (sl : List String) → ((string_in_from i v sl).1 ≡ true) ↔ Memᴰ v sl
unfolding string_in_from
string_in_from_iff i v [] = (λ h. cc, λ m. elim m [ ])
string_in_from_iff i v (w ∷ sl) = elim (Bool-cases (w == v)) [
  | inl same ↦ rw same (λ h. Memᴰ.head (ground (arith, eq_iff w v)), λ m. refl)
  | inr other ↦
      let rest = string_in_from_iff (suc i) v sl in
      rw other (λ h. Memᴰ.tail (rest.0 h), λ m. rest.1 (skip_head v w sl other m))
]

-- StringIn finds a text exactly when the list has it.
pub string_in_iff : (v : String) (sl : List String) → ((string_in v sl).1 ≡ true) ↔ Memᴰ v sl
unfolding string_in
string_in_iff v sl = string_in_from_iff 0 v sl

pub string_in-nil : (v : String) → (string_in v []).1 ≡ false
unfolding string_in
string_in-nil v = refl
