-- ===== src/Cluster/Subject.antt =====
-- The subjects of nats_subject.go: no two nodes share one.
use Prim.Native.Char.{Char, code}
use Prim.Native.String.{◌++◌}
use xgame.Common.{
  ℕ, zero, suc, ◌≡◌, refl, sym, ap, ◌∙◌, Bool, true, false, not, ◌&&◌, String, nat_eq, arith,
  append_nil, append_cons, append_right_nil, append_cancel, cons_head, cons_tail,
}
use xgame.Go.Fmt.{sprintf}
use xgame.Cluster.{remote_subject}

unfoldable pub no_dot : String → Bool
no_dot String.[] = true
no_dot (String.◌∷◌ c s) = not (nat_eq (code c) b'.') && no_dot s

strip : ℕ → String → String
strip zero s = s
strip (suc n) String.[] = ""
strip (suc n) (String.◌∷◌ c s) = strip n s

undotted :
    (c : Char) (s : String)
    → no_dot (String.◌∷◌ c s) ≡ true
    → (nat_eq (code c) b'.' ≡ false) × (no_dot s ≡ true)
unfolding no_dot
undotted c s h = (ground arith, ground arith)

-- A text without a dot ends at the first dot.
split_dot :
    (a b s t : String) (d : Char)
    → code d ≡ b'.'
    → no_dot a ≡ true
    → no_dot b ≡ true
    → a ++ String.◌∷◌ d s ≡ b ++ String.◌∷◌ d t
    → (a ≡ b) × (s ≡ t)
unfolding no_dot
split_dot String.[] String.[] s t d dot ha hb h =
    (refl, cons_tail d d s t (sym (append_nil _) ∙ h ∙ append_nil _))
split_dot String.[] (String.◌∷◌ c b) s t d dot ha hb h =
    let same = cons_head d c s _ (sym (append_nil _) ∙ h ∙ append_cons c b _) in
    absurd (ground (arith, dot, ap code same, (undotted c b hb).0))
split_dot (String.◌∷◌ c a) String.[] s t d dot ha hb h =
    let same = cons_head c d _ t (sym (append_cons c a _) ∙ h ∙ append_nil _) in
    absurd (ground (arith, dot, ap code same, (undotted c a ha).0))
split_dot (String.◌∷◌ c a) (String.◌∷◌ e b) s t d dot ha hb h =
    let whole = sym (append_cons c a _) ∙ h ∙ append_cons e b _ in
    let (front, back) =
      split_dot a b s t d dot (undotted c a ha).1 (undotted e b hb).1 (cons_tail c e _ _ whole) in
    (ap (λ x. String.◌∷◌ x a) (cons_head c e _ _ whole) ∙ ap (String.◌∷◌ e) front, back)

-- The subjects of two nodes of which the types have no dots are the same only when both their types and their
-- ids are.
pub remote_subject_injective :
    (prefix node_type node_id other_type other_id : String)
    → no_dot node_type ≡ true
    → no_dot other_type ≡ true
    → remote_subject prefix node_type node_id ≡ remote_subject prefix other_type other_id
    → (node_type ≡ other_type) × (node_id ≡ other_id)
unfolding remote_subject sprintf strip
remote_subject_injective prefix a id b id' ha hb h =
    let h1 = append_cancel prefix _ _ (ap (strip 7) h) in
    let (types, ids) = split_dot a b _ _ _ refl ha hb (ap (strip 8) h1) in
    (types, sym (append_right_nil id) ∙ ids ∙ append_right_nil id')
