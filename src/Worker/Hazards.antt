-- ===== src/Worker/Hazards.antt =====
-- What worker.go does when it is used as framework/application.go uses it, and when a Post meets a Stop.
use xgame.Common.{ℕ, ◌<◌, ◌≡◌, refl, true, [], ◌∷◌, arith}
use xgame.Worker.{
  Worker, new_worker, Step, post_check, post_count, post_send, post_panic, start, receive, call,
  stop, stop_close, Reach, init, next,
}

infixl 3 ◌▸◌
abbrev pub ◌▸◌ : {F : Type 0} {size : ℕ} {v w : Worker F} → Reach size v → Step v w → Reach size w
r ▸ s = next r s

fits : (F : Type 0) (size : ℕ) → 0 < (new_worker {F = F} size).capacity
unfolding new_worker
fits F size = ground arith

module _ {F : Type 0} where
  -- Some interleaving after two calls of Start calls two functions at one time, and in the other
  -- order than they were sent.
  pub started_twice :
      (size : ℕ) (f g : F)
      → (w : Worker F) × Reach size w
        × (w.starts ≡ 2)
        × (w.sent ≡ f ∷ g ∷ [])
        × (w.begun ≡ g ∷ f ∷ [])
        × (w.running ≡ f ∷ g ∷ [])
  unfolding new_worker
  started_twice size f g = (
    _,
    init
        ▸ start
        ▸ start
        ▸ post_check f refl
        ▸ post_count [] f [] refl
        ▸ post_send [] f [] refl refl (fits F size)
        ▸ receive 1 f [] refl refl
        ▸ post_check g refl
        ▸ post_count [] g [] refl
        ▸ post_send [] g [] refl refl (fits F size)
        ▸ receive 0 g [] refl refl
        ▸ call [] g (f ∷ []) refl
        ▸ call [] f [] refl,
    refl,
    refl,
    refl,
    refl,
  )

  -- Some interleaving of Start, Post and Stop lets the Post panic, and its function is never
  -- called: Post has seen `closed` false before Stop sets it and closes the channel.
  pub post_during_stop :
      (size : ℕ) (f : F) → (w : Worker F) × Reach size w × (w.crashed ≡ true) × (w.begun ≡ [])
  unfolding new_worker
  post_during_stop size f = (
    _,
    init
        ▸ start
        ▸ post_check f refl
        ▸ stop refl
        ▸ stop_close refl
        ▸ post_count [] f [] refl
        ▸ post_panic [] f [] refl refl,
    refl,
    refl,
  )
