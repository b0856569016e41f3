-- ===== src/Tests/WorkerTests.antt =====
-- Runs of framework/pkg/worker.
use xgame.Common.{ℕ, ◌⊎◌, ◌≤◌, ◌≡◌, refl, true, [], ◌∷◌, ◌++◌, length, arith}
use xgame.Worker.{
  Worker, new_worker, post_check, post_count, post_send, start, receive, call, finish, recover,
  stop, stop_close, drained, done, Reach, init,
}
use xgame.Worker.Order.{one_at_a_time, stop_runs_all}
use xgame.Worker.Termination.{Work, here, more, CanWork, work_left, stop_terminates}
use xgame.Worker.Hazards.{◌▸◌}

-- Two functions are sent; the first one has been called, and the second one is waiting.
abbrev busy : (w : Worker ℕ) × Reach 4 w × (w.starts ≡ 1)
unfolding new_worker
busy = (
  _,
  init
      ▸ start
      ▸ post_check 7 refl
      ▸ post_count [] 7 [] refl
      ▸ post_send [] 7 [] refl refl (omega arith)
      ▸ post_check 8 refl
      ▸ post_count [] 8 [] refl
      ▸ post_send [] 8 [] refl refl (omega arith)
      ▸ receive 0 7 (8 ∷ []) refl refl
      ▸ call [] 7 [] refl,
  refl,
)

-- The first function panics, the second one returns, and the worker is stopped.
abbrev finished : (w : Worker ℕ) × Reach 4 w × (w.starts ≡ 1) × (w.wg ≡ 0)
unfolding new_worker
finished = (
  _,
  busy.1
      ▸ recover [] 7 [] refl
      ▸ stop refl
      ▸ stop_close refl
      ▸ receive 0 8 [] refl refl
      ▸ call [] 8 [] refl
      ▸ finish [] 8 [] refl
      ▸ drained 0 refl refl refl
      ▸ done 1 refl
      ▸ done 0 refl,
  refl,
  refl,
)

one_at_a_time_example :
    (length busy.0.running ≤ 1) × (busy.0.sent ≡ busy.0.begun ++ (busy.0.held ++ busy.0.queue))
unfolding new_worker
one_at_a_time_example = one_at_a_time busy.1 (omega arith)

stop_runs_all_example :
    (finished.0.begun ≡ finished.0.sent) × (finished.0.running ≡ []) × (finished.0.queue ≡ [])
unfolding new_worker
stop_runs_all_example = stop_runs_all finished.1 refl refl

-- Stop has closed the channel while the first function runs and the second one waits.
abbrev closing : (w : Worker ℕ) × Reach 4 w × (w.chan_closed ≡ true)
unfolding new_worker
closing = (_, busy.1 ▸ stop refl ▸ stop_close refl, refl)

abbrev worked : (w : Worker ℕ) × Work closing.0 3 w
unfolding new_worker
worked = (
  _,
  more (more (more here (recover [] 7 [] refl) refl) (receive 0 8 [] refl refl) refl)
      (call [] 8 [] refl) refl,
)

stop_terminates_example : (3 ≤ work_left closing.0) × ((worked.0.wg ≡ 0) ⊎ CanWork worked.0)
stop_terminates_example = stop_terminates closing.1 closing.2 worked.1
