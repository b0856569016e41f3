-- ===== src/Worker/Order.antt =====
-- With one call of Start the functions are called one at a time, in the order of their Posts, and Stop
-- returns only when all have been called.
use xgame.Common.{
  ℕ, ◌+◌, ◌≤◌, ◌<◌, ◌≡◌, refl, true, List, [], ◌∷◌, ◌++◌, length, arith, ap, sym, ◌∙◌,
}
use mathlib.Core.List.{append_assoc, append-nil}
use xgame.Worker.{
  Worker, new_worker, Step, post_refused, post_check, post_count, post_send, post_panic, start,
  receive, call, finish, recover, drained, done, stop_again, stop, stop_close, stop_return, Reach,
  init, next,
}
use xgame.Worker.Accounting.{length-middle, Reach-Counts}

module _ {F : Type 0} where
  -- The goroutines that have not left the loop.
  abbrev pub alive : Worker F → ℕ
  alive w = w.receiving + length w.held + length w.running

  pub record Runs (w : Worker F) : Type 0 where
    pub started : alive w ≤ w.starts
    pub in_order : w.starts ≤ 1 → w.sent ≡ w.begun ++ (w.held ++ w.queue)
    pub none_left : alive w ≡ 0 → 0 < w.starts → (w.queue ≡ []) × (w.chan_closed ≡ true)

  new-Runs : (size : ℕ) → Runs (new_worker size)
  unfolding new_worker
  new-Runs size = ground arith

  sent_behind :
      (sent begun held queue : List F) (f : F)
      → sent ≡ begun ++ (held ++ queue)
      → sent ++ f ∷ [] ≡ begun ++ (held ++ (queue ++ f ∷ []))
  sent_behind sent begun held queue f e = rw e (simp append_assoc)

  one_held :
      (xs : List F) (f : F) (ys queue begun sent : List F)
      → length (xs ++ f ∷ ys) ≤ 1
      → sent ≡ begun ++ ((xs ++ f ∷ ys) ++ queue)
      → sent ≡ (begun ++ f ∷ []) ++ ((xs ++ ys) ++ queue)
  one_held [] f [] queue begun sent h e = e ∙ simp append_assoc
  one_held [] f (y ∷ ys) queue begun sent h e = absurd (omega arith)
  one_held (x ∷ xs) f ys queue begun sent h e = absurd (omega (arith, length-middle xs f ys))

  nil_of_length : (xs : List F) → length xs ≤ 0 → xs ≡ []
  nil_of_length [] h = refl
  nil_of_length (x ∷ xs) h = absurd (omega arith)

  pub Step-Runs : {v w : Worker F} → Step v w → Runs v → Runs w
  Step-Runs (post_refused f e) c = c
  Step-Runs (post_check f e) c = record {
    started = c.started;
    in_order = c.in_order;
    none_left = c.none_left;
  }
  Step-Runs (post_count xs f ys e) c = record {
    started = c.started;
    in_order = c.in_order;
    none_left = c.none_left;
  }
  Step-Runs {v} (post_send xs f ys e o fits) c = record {
    started = c.started;
    in_order = λ h. sent_behind v.sent v.begun v.held v.queue f (c.in_order h);
    none_left = λ z s. ground (arith, c.none_left z s);
  }
  Step-Runs (post_panic xs f ys e o) c = record {
    started = c.started;
    in_order = c.in_order;
    none_left = c.none_left;
  }
  Step-Runs start c = record {
    started = omega (arith, c.started);
    in_order = λ h. c.in_order (omega arith);
    none_left = λ z s. absurd (omega arith);
  }
  Step-Runs {v} (receive n f rest e q) c = record {
    started = omega (arith, c.started);
    in_order = λ h. cc (c.in_order h, nil_of_length v.held (omega (arith, c.started)), q);
    none_left = λ z s. absurd (omega arith);
  }
  Step-Runs {v} (call xs f ys e) c = record {
    started = omega (arith, c.started, length-middle xs f ys, ap length e);
    in_order = λ h.
        one_held xs f ys v.queue v.begun v.sent (omega (arith, c.started, ap length e))
          (c.in_order h ∙ ap (λ zs. v.begun ++ (zs ++ v.queue)) e);
    none_left = λ z s. absurd (omega arith);
  }
  Step-Runs (finish xs f ys e) c = record {
    started = omega (arith, c.started, length-middle xs f ys, ap length e);
    in_order = c.in_order;
    none_left = λ z s. absurd (omega arith);
  }
  Step-Runs (recover xs f ys e) c = record {
    started = omega (arith, c.started, length-middle xs f ys, ap length e);
    in_order = c.in_order;
    none_left = λ z s. absurd (omega arith);
  }
  Step-Runs (drained n e q o) c = record {
    started = omega (arith, c.started);
    in_order = c.in_order;
    none_left = λ z s. (q, o);
  }
  Step-Runs (done n e) c = record {
    started = c.started;
    in_order = c.in_order;
    none_left = c.none_left;
  }
  Step-Runs (stop_again e) c = c
  Step-Runs (stop e) c = record {
    started = c.started;
    in_order = c.in_order;
    none_left = c.none_left;
  }
  Step-Runs (stop_close e) c = record {
    started = c.started;
    in_order = c.in_order;
    none_left = λ z s. ((c.none_left z s).0, refl);
  }
  Step-Runs (stop_return e z) c = record {
    started = c.started;
    in_order = c.in_order;
    none_left = c.none_left;
  }

  pub Reach-Runs : {size : ℕ} {w : Worker F} → Reach size w → Runs w
  Reach-Runs {size} init = new-Runs size
  Reach-Runs (next r s) = Step-Runs s (Reach-Runs r)

  -- In every state that an interleaving reaches with at most one outside call of Start, at most one
  -- function is being called, and the functions are called in the order in which they were put into
  -- the channel: those called, the one received and those in the channel make up all that were
  -- sent.
  pub one_at_a_time :
      {size : ℕ} {w : Worker F}
      → Reach size w
      → w.starts ≤ 1
      → (length w.running ≤ 1) × (w.sent ≡ w.begun ++ (w.held ++ w.queue))
  one_at_a_time r h = (omega (arith, (Reach-Runs r).started), (Reach-Runs r).in_order h)

  -- In every state that an interleaving reaches with one outside call of Start, once `finiWg` is 0,
  -- so that the Wait of Stop can return, every function that was sent has been called, in order,
  -- none is still being called, and none is left in the channel.
  pub stop_runs_all :
      {size : ℕ} {w : Worker F}
      → Reach size w
      → w.starts ≡ 1
      → w.wg ≡ 0
      → (w.begun ≡ w.sent) × (w.running ≡ []) × (w.queue ≡ [])
  stop_runs_all {w} r one idle =
      let counts = (Reach-Counts r).goroutines in
      let runs = Reach-Runs r in
      let empty_held = nil_of_length w.held (omega (arith, counts)) in
      let empty_queue = (runs.none_left (omega (arith, counts)) (omega arith)).0 in
      (
        sym (append-nil w.begun) ∙ cc (runs.in_order (omega arith), empty_held, empty_queue),
        nil_of_length w.running (omega (arith, counts)),
        empty_queue,
      )
