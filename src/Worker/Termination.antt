-- ===== src/Worker/Termination.antt =====
-- Once Stop of worker.go has closed the channel, the goroutines end, so that its Wait returns. A function
-- that never returns is a step that never comes.
use xgame.Common.{
  ℕ, zero, suc, ◌+◌, ◌*◌, ◌≤◌, ◌<◌, ◌≡◌, ◌≢◌, ◌⊎◌, inl, inr, refl, ap, Bool, true, false, List, [],
  ◌∷◌, length, arith,
}
use xgame.Worker.{
  Worker, Step, post_refused, post_check, post_count, post_send, post_panic, start, receive, call,
  finish, recover, drained, done, stop_again, stop, stop_close, stop_return, Reach, next,
}
use xgame.Worker.Accounting.{length-middle, Counts, Reach-Counts}

ℕ-cases : (n : ℕ) → (n ≡ 0) ⊎ ((m : ℕ) × (n ≡ suc m))
ℕ-cases zero = inl refl
ℕ-cases (suc m) = inr (m, refl)

module _ {F : Type 0} where
  -- The steps of the goroutines of Start.
  abbrev pub is_work : {v w : Worker F} → Step v w → Bool
  is_work (receive n f rest e q) = true
  is_work (call xs f ys e) = true
  is_work (finish xs f ys e) = true
  is_work (recover xs f ys e) = true
  is_work (drained n e q o) = true
  is_work (done n e) = true
  is_work (post_refused f e) = false
  is_work (post_check f e) = false
  is_work (post_count xs f ys e) = false
  is_work (post_send xs f ys e o fits) = false
  is_work (post_panic xs f ys e o) = false
  is_work start = false
  is_work (stop_again e) = false
  is_work (stop e) = false
  is_work (stop_close e) = false
  is_work (stop_return e z) = false

  -- What the goroutines have left to do. Each function is received, called, and returns or panics; each
  -- goroutine finds the channel empty, and ends.
  abbrev pub work_left : Worker F → ℕ
  work_left w =
      4 * length w.queue + 5 * length w.held + 4 * length w.running + 2 * w.receiving + w.exiting

  -- Runs of the goroutines, by the number of their steps.
  pub data Work (v : Worker F) : ℕ → Worker F → Type 0 where
    here : Work v 0 v
    more :
        {n : ℕ} {w x : Worker F} → Work v n w → (s : Step w x) → is_work s ≡ true → Work v (suc n) x

  pub record CanWork (v : Worker F) : Type 0 where
    pub after : Worker F
    pub step : Step v after
    pub works : is_work step ≡ true

  work_less : {v w : Worker F} (s : Step v w) → is_work s ≡ true → work_left w < work_left v
  work_less (receive n f rest e q) h = omega (arith, ap length q)
  work_less (call xs f ys e) h = omega (arith, length-middle xs f ys, ap length e)
  work_less (finish xs f ys e) h = omega (arith, length-middle xs f ys, ap length e)
  work_less (recover xs f ys e) h = omega (arith, length-middle xs f ys, ap length e)
  work_less (drained n e q o) h = omega arith
  work_less (done n e) h = omega arith
  work_less (post_refused f e) h = cc
  work_less (post_check f e) h = cc
  work_less (post_count xs f ys e) h = cc
  work_less (post_send xs f ys e o fits) h = cc
  work_less (post_panic xs f ys e o) h = cc
  work_less start h = cc
  work_less (stop_again e) h = cc
  work_less (stop e) h = cc
  work_less (stop_close e) h = cc
  work_less (stop_return e z) h = cc

  work_keeps_closed :
      {v w : Worker F} (s : Step v w)
      → is_work s ≡ true
      → v.chan_closed ≡ true
      → w.chan_closed ≡ true
  work_keeps_closed (receive n f rest e q) h c = c
  work_keeps_closed (call xs f ys e) h c = c
  work_keeps_closed (finish xs f ys e) h c = c
  work_keeps_closed (recover xs f ys e) h c = c
  work_keeps_closed (drained n e q o) h c = c
  work_keeps_closed (done n e) h c = c
  work_keeps_closed (post_refused f e) h c = c
  work_keeps_closed (post_check f e) h c = c
  work_keeps_closed (post_count xs f ys e) h c = c
  work_keeps_closed (post_send xs f ys e o fits) h c = c
  work_keeps_closed (post_panic xs f ys e o) h c = c
  work_keeps_closed start h c = c
  work_keeps_closed (stop_again e) h c = c
  work_keeps_closed (stop e) h c = c
  work_keeps_closed (stop_close e) h c = refl
  work_keeps_closed (stop_return e z) h c = c

  list_cases : (xs : List F) → (xs ≡ []) ⊎ ((x : F) × (ys : List F) × (xs ≡ x ∷ ys))
  list_cases [] = inl refl
  list_cases (x ∷ ys) = inr (x, ys, refl)

  waiting-CanWork :
      (v : Worker F)
      → v.chan_closed ≡ true
      → v.running ≡ []
      → v.held ≡ []
      → v.wg ≢ 0
      → Counts v
      → CanWork v
  waiting-CanWork v closed not_running not_held busy counts = elim (ℕ-cases v.receiving) [
    | inr (m, e) ↦ elim (list_cases v.queue) [
      | inl empty ↦ record { after = _; step = drained m e empty closed; works = refl }
      | inr (f, rest, q) ↦ record { after = _; step = receive m f rest e q; works = refl }
    ]
    | inl none_receiving ↦ elim (ℕ-cases v.exiting) [
      | inr (m, e) ↦ record { after = _; step = done m e; works = refl }
      | inl none_exiting ↦
          absurd
            (busy (omega (arith, counts.goroutines, ap length not_running, ap length not_held)))
    ]
  ]

  -- While a goroutine is left, one of them can take a step.
  closed-CanWork : (v : Worker F) → v.chan_closed ≡ true → v.wg ≢ 0 → Counts v → CanWork v
  closed-CanWork v closed busy counts = elim (list_cases v.running) [
    | inr (f, ys, e) ↦ record { after = _; step = finish [] f ys e; works = refl }
    | inl not_running ↦ elim (list_cases v.held) [
      | inr (f, ys, e) ↦ record { after = _; step = call [] f ys e; works = refl }
      | inl not_held ↦ waiting-CanWork v closed not_running not_held busy counts
    ]
  ]

  Work-Reach :
      {size : ℕ} {v : Worker F} {n : ℕ} {w : Worker F} → Reach size v → Work v n w → Reach size w
  Work-Reach r here = r
  Work-Reach r (more k s h) = next (Work-Reach r k) s

  Work-closed :
      {v : Worker F} {n : ℕ} {w : Worker F}
      → v.chan_closed ≡ true
      → Work v n w
      → w.chan_closed ≡ true
  Work-closed c here = c
  Work-closed c (more k s h) = work_keeps_closed s h (Work-closed c k)

  Work-bounded : {v : Worker F} {n : ℕ} {w : Worker F} → Work v n w → n + work_left w ≤ work_left v
  Work-bounded here = omega arith
  Work-bounded (more k s h) = omega (arith, Work-bounded k, work_less s h)

  -- In every state that an interleaving reaches in which the channel is closed, every run of the goroutines
  -- alone, in any order of their steps and whichever functions panic, has at most `work_left` steps, and a run
  -- that cannot go on has left no goroutine, so that the Wait of Stop returns.
  pub stop_terminates :
      {size n : ℕ} {v w : Worker F}
      → Reach size v
      → v.chan_closed ≡ true
      → Work v n w
      → (n ≤ work_left v) × ((w.wg ≡ 0) ⊎ CanWork w)
  stop_terminates {v} {w} r closed k = (
    omega (arith, Work-bounded k),
    elim (ℕ-cases w.wg) [
      | inl over ↦ inl over
      | inr (m, e) ↦ inr (
          closed-CanWork w (Work-closed closed k) (λ z. omega arith)
            (Reach-Counts (Work-Reach r k)))
    ],
  )

  drain :
      (fuel : ℕ) {size m : ℕ} {u v : Worker F}
      → Reach size v
      → v.chan_closed ≡ true
      → work_left v < fuel
      → Work u m v
      → (n : ℕ) × (w : Worker F) × Work u n w × (w.wg ≡ 0)
  drain zero r closed small k = absurd (omega arith)
  drain (suc fuel) {m} {v} r closed small k = elim (ℕ-cases v.wg) [
    | inl over ↦ (m, v, k, over)
    | inr (j, e) ↦
        let can = closed-CanWork v closed (λ z. omega arith) (Reach-Counts r) in
        drain fuel (next r can.step) (work_keeps_closed can.step can.works closed)
          (omega (arith, work_less can.step can.works)) (more k can.step can.works)
  ]

  -- Such a run exists: from every state that an interleaving reaches with a closed channel, the goroutines alone
  -- can get to where Stop returns.
  pub stop_can_return :
      {size : ℕ} {v : Worker F}
      → Reach size v
      → v.chan_closed ≡ true
      → (n : ℕ) × (w : Worker F) × Work v n w × (w.wg ≡ 0)
  stop_can_return {v} r closed = drain (suc (work_left v)) r closed (omega arith) here
