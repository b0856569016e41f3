-- ===== src/Worker/Accounting.antt =====
-- What the counters of worker.go count.
use xgame.Common.{
  ℕ, suc, ◌+◌, ◌≤◌, ◌≡◌, false, List, [], ◌∷◌, ◌++◌, length, length-append, arith, ap,
}
use xgame.Worker.{
  Worker, new_worker, Step, post_refused, post_check, post_count, post_send, post_panic, start,
  receive, call, finish, recover, drained, done, stop_again, stop, stop_close, stop_return, Reach,
  init, next,
}

module _ {F : Type 0} where
  pub length-middle :
      (xs : List F) (f : F) (ys : List F) → length (xs ++ f ∷ ys) ≡ suc (length (xs ++ ys))
  length-middle xs f ys = omega (arith, length-append xs (f ∷ ys), length-append xs ys)

  pub record Counts (w : Worker F) : Type 0 where
    -- `len` is the number of functions that were posted and not yet called.
    pub pending : w.crashed ≡ false → w.len ≡ length w.counted + length w.queue + length w.held
    -- `finiWg` is the number of goroutines.
    pub goroutines : w.wg ≡ w.receiving + length w.held + length w.running + w.exiting
    pub bounded : length w.queue ≤ w.capacity

  pub new-Counts : (size : ℕ) → Counts (new_worker size)
  unfolding new_worker
  new-Counts size = omega arith

  pub Step-Counts : {v w : Worker F} → Step v w → Counts v → Counts w
  Step-Counts (post_refused f e) c = c
  Step-Counts (post_check f e) c = ground (arith, c.pending)
  Step-Counts {v} (post_count xs f ys e) c = ground (arith, c.pending)
  Step-Counts {v} (post_send xs f ys e o fits) c =
      ground (arith, c.pending, length-middle xs f ys, ap length e, length-append v.queue (f ∷ []))
  Step-Counts (post_panic xs f ys e o) c = ground (arith, c.pending)
  Step-Counts start c = ground (arith, c.pending)
  Step-Counts {v} (receive n f rest e q) c = ground (arith, c.pending, ap length q)
  Step-Counts (call xs f ys e) c = ground (arith, c.pending, length-middle xs f ys, ap length e)
  Step-Counts (finish xs f ys e) c = ground (arith, c.pending, length-middle xs f ys, ap length e)
  Step-Counts (recover xs f ys e) c = ground (arith, c.pending, length-middle xs f ys, ap length e)
  Step-Counts (drained n e q o) c = ground (arith, c.pending)
  Step-Counts (done n e) c = ground (arith, c.pending)
  Step-Counts (stop_again e) c = c
  Step-Counts (stop e) c = ground (arith, c.pending)
  Step-Counts (stop_close e) c = ground (arith, c.pending)
  Step-Counts (stop_return e z) c = ground (arith, c.pending)

  -- In every state that an interleaving reaches, `len` is the number of functions that were posted
  -- and not yet called, unless a send has panicked; `finiWg` is the number of goroutines; and the
  -- channel holds no more than its capacity.
  pub Reach-Counts : {size : ℕ} {w : Worker F} → Reach size w → Counts w
  Reach-Counts {size} init = new-Counts size
  Reach-Counts (next r s) = Step-Counts s (Reach-Counts r)
