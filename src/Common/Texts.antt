-- ===== src/Common/Texts.antt =====
-- Texts: append and the first character.
use Prim.Native.Char.{Char}
use Prim.Native.String.{String, ◌++◌}
use Prim.Native.String.append.{nil, cons}
use mathlib.Core.Path.{◌≡◌, sym, ap, ◌∙◌}

tail_of : String → String
tail_of String.[] = ""
tail_of (String.◌∷◌ c s) = s

pub cons_tail : (c d : Char) (s t : String) → String.◌∷◌ c s ≡ String.◌∷◌ d t → s ≡ t
unfolding tail_of
cons_tail c d s t h = ap tail_of h

head_of : Char → String → Char
head_of c String.[] = c
head_of c (String.◌∷◌ d s) = d

pub cons_head : (c d : Char) (s t : String) → String.◌∷◌ c s ≡ String.◌∷◌ d t → c ≡ d
unfolding head_of
cons_head c d s t h = ap (head_of c) h

pub append_nil : (s : String) → "" ++ s ≡ s
append_nil s = λ i. nil s i

pub append_cons : (c : Char) (p s : String) → String.◌∷◌ c p ++ s ≡ String.◌∷◌ c (p ++ s)
append_cons c p s = λ i. cons c p s i

pub append_right_nil : (s : String) → s ++ "" ≡ s
append_right_nil String.[] = append_nil ""
append_right_nil (String.◌∷◌ c s) = append_cons c s "" ∙ ap (String.◌∷◌ c) (append_right_nil s)

pub append_cancel : (p s t : String) → p ++ s ≡ p ++ t → s ≡ t
append_cancel String.[] s t h = sym (append_nil s) ∙ h ∙ append_nil t
append_cancel (String.◌∷◌ c p) s t h =
    append_cancel p s t
      (cons_tail c c (p ++ s) (p ++ t) (sym (append_cons c p s) ∙ h ∙ append_cons c p t))
