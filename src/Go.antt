-- ===== src/Go.antt =====
-- What the model uses of Go: the ways to leave a function (a value, an `error`, a panic), methods that
-- change shared state, `fmt` and `hash/crc32`.
pub mod Fmt
pub mod Crc32
pub mod Errors
use xgame.Common.{String, ◌≡◌, refl, Bool, true, false}
use Errors.{Error}

pub data Result {ℓ} (A : Type ℓ) : Type ℓ where
  ok : A → Result A
  err : Error → Result A
  panic : String → Result A

-- What was written before an error or a panic stays written: the state comes back beside them.
abbrev pub Exec {ℓ} : Type ℓ → Type ℓ → Type ℓ
Exec S A = S → Result A × S

module _ {ℓ} {S A B : Type ℓ} where
  abbrev pub continue : Result A → (A → Exec S B) → Exec S B
  continue (ok a) f s = f a s
  continue (err e) f s = (err e, s)
  continue (panic m) f s = (panic m, s)

  infixl 5 ◌>>=◌ ◌>>◌
  abbrev pub ◌>>=◌ : Exec S A → (A → Exec S B) → Exec S B
  ◌>>=◌ m f s = let (r, s') = m s in continue r f s'

  abbrev pub ◌>>◌ : Exec S A → Exec S B → Exec S B
  m >> n = m >>= λ _. n

module _ {S A B : Type 0} where
  pub continue-ok :
      (r : Result A) (f : A → Exec S B) (s : S) {b : B}
      → (continue r f s).0 ≡ ok b
      → (a : A) × (r ≡ ok a) × (continue r f s ≡ f a s) × ((f a s).0 ≡ ok b)
  continue-ok (ok a) f s h = (a, refl, refl, h)
  continue-ok (err e) f s h = cc
  continue-ok (panic x) f s h = cc

  -- What every step keeps, the chain keeps, however it ends.
  pub continue-keeps :
      (P : S → Type 0) (r : Result A) (f : A → Exec S B) (s : S)
      → P s
      → ((a : A) (t : S) → P t → P (f a t).1)
      → P (continue r f s).1
  continue-keeps P (ok a) f s h k = k a s h
  continue-keeps P (err e) f s h k = h
  continue-keeps P (panic x) f s h k = h

  -- Inversion of a chain that returned a value.
  pub >>=-ok :
      (m : Exec S A) (f : A → Exec S B) (s : S) {b : B}
      → ((m >>= f) s).0 ≡ ok b
      → (a : A) × ((m s).0 ≡ ok a) × ((m >>= f) s ≡ f a (m s).1) × ((f a (m s).1).0 ≡ ok b)
  >>=-ok m f s h = let (r, s') = m s in continue-ok r f s' h

module _ {ℓ} {S A : Type ℓ} where
  abbrev pub pure : A → Exec S A
  pure a s = (ok a, s)

  abbrev pub raise : Error → Exec S A
  raise e s = (err e, s)

  -- A call that does not touch the state.
  abbrev pub lift : Result A → Exec S A
  lift r s = (r, s)

module _ {S : Type 0} where
  -- `if !b { return err }`
  abbrev pub guard : Bool → Error → Exec S (Unit {0})
  guard true e s = (ok tt, s)
  guard false e s = (err e, s)
