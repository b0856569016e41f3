-- ===== src/Worker.antt =====
-- framework/pkg/worker/worker.go: a queue of functions and the goroutines that run them. The calls and
-- the goroutines interleave, so a step is one access to what they share. Whether a function returns or
-- panics is left to the environment.
pub mod Accounting
pub mod Order
pub mod Hazards
pub mod Termination
use xgame.Common.{
  ℕ, suc, ◌+◌, ◌-◌, ◌^◌, ◌≤◌, ◌<◌, ◌≡◌, Bool, true, false, List, [], ◌∷◌, ◌++◌, length, nat_eq,
  if◌then◌else◌,
}

-- The fields of Worker, and where each goroutine stands.
pub record Worker (F : Type 0) : Type 0 where
  pub closed : Bool  -- closed
  pub chan_closed : Bool  -- fs has been closed
  pub capacity : ℕ  -- cap(fs)
  pub queue : List F  -- what fs holds, oldest first
  pub len : ℕ  -- len; below 2^31, see Accounting
  pub wg : ℕ  -- finiWg
  pub checked : List F  -- calls of Post that have seen `closed` false
  pub counted : List F  -- calls of Post at `w.fs <- f`
  pub receiving : ℕ  -- goroutines at the head of `range w.fs`
  pub held : List F  -- received functions, before `w.len.Add(-1)`
  pub running : List F  -- functions being called
  pub exiting : ℕ  -- goroutines before `defer w.finiWg.Done()`
  pub stopping : Bool  -- a Stop between the CompareAndSwap and the close
  pub waiting : Bool  -- a Stop at `finiWg.Wait()`
  pub stopped : Bool  -- a Stop has returned
  pub crashed : Bool  -- a send on the closed channel has panicked
  pub starts : ℕ  -- calls of Start from outside
  pub sent : List F  -- all functions that were put into fs, in order
  pub begun : List F  -- all functions that were called, in order

-- NewWorker, with the values that Go gives the other fields.
unfoldable pub new_worker : {F : Type 0} → ℕ → Worker F
new_worker max_worker_len = record {
  closed = false;
  chan_closed = false;
  capacity = if nat_eq max_worker_len 0 then 2 ^ 10 else max_worker_len;
  queue = [];
  len = 0;
  wg = 0;
  checked = [];
  counted = [];
  receiving = 0;
  held = [];
  running = [];
  exiting = 0;
  stopping = false;
  waiting = false;
  stopped = false;
  crashed = false;
  starts = 0;
  sent = [];
  begun = [];
}

module _ {F : Type 0} where
  pub data Step (w : Worker F) : Worker F → Type 0 where
    -- Post: `if w.closed.Load() { return }`
    post_refused : (f : F) → w.closed ≡ true → Step w w
    post_check : (f : F) → w.closed ≡ false → Step w (record w { checked = f ∷ w.checked })
    -- Post: `w.len.Add(1)`
    post_count :
        (xs : List F) (f : F) (ys : List F)
        → w.checked ≡ xs ++ f ∷ ys
        → Step w (record w { checked = xs ++ ys; counted = f ∷ w.counted; len = suc w.len })
    -- Post: `w.fs <- f`, which waits while the channel is full and panics when it is closed
    post_send :
        (xs : List F) (f : F) (ys : List F)
        → w.counted ≡ xs ++ f ∷ ys
        → w.chan_closed ≡ false
        → length w.queue < w.capacity
        → Step w
            (record w { counted = xs ++ ys; queue = w.queue ++ f ∷ []; sent = w.sent ++ f ∷ [] })
    post_panic :
        (xs : List F) (f : F) (ys : List F)
        → w.counted ≡ xs ++ f ∷ ys
        → w.chan_closed ≡ true
        → Step w (record w { counted = xs ++ ys; crashed = true })
    -- Start: `w.finiWg.Add(1)` and `go`
    start : Step w (record w { wg = suc w.wg; receiving = suc w.receiving; starts = suc w.starts })
    -- `for f := range w.fs`
    receive :
        (n : ℕ) (f : F) (rest : List F)
        → w.receiving ≡ suc n
        → w.queue ≡ f ∷ rest
        → Step w (record w { receiving = n; queue = rest; held = f ∷ w.held })
    -- `w.len.Add(-1)` and the call
    call :
        (xs : List F) (f : F) (ys : List F)
        → w.held ≡ xs ++ f ∷ ys
        → Step w (record w {
          held = xs ++ ys;
          running = f ∷ w.running;
          len = w.len - 1;
          begun = w.begun ++ f ∷ [];
        })
    finish :
        (xs : List F) (f : F) (ys : List F)
        → w.running ≡ xs ++ f ∷ ys
        → Step w (record w { running = xs ++ ys; receiving = suc w.receiving })
    -- the deferred recover: `w.Start()`, and then the goroutine that panicked ends
    recover :
        (xs : List F) (f : F) (ys : List F)
        → w.running ≡ xs ++ f ∷ ys
        → Step w (record w {
          running = xs ++ ys;
          wg = suc w.wg;
          receiving = suc w.receiving;
          exiting = suc w.exiting;
        })
    -- `range` ends on a closed, empty channel
    drained :
        (n : ℕ)
        → w.receiving ≡ suc n
        → w.queue ≡ []
        → w.chan_closed ≡ true
        → Step w (record w { receiving = n; exiting = suc w.exiting })
    -- `defer w.finiWg.Done()`
    done : (n : ℕ) → w.exiting ≡ suc n → Step w (record w { exiting = n; wg = w.wg - 1 })
    -- Stop: `w.closed.CompareAndSwap(false, true)`, `close(w.fs)`, `w.finiWg.Wait()`
    stop_again : w.closed ≡ true → Step w w
    stop : w.closed ≡ false → Step w (record w { closed = true; stopping = true })
    stop_close :
        w.stopping ≡ true
        → Step w (record w { stopping = false; chan_closed = true; waiting = true })
    stop_return :
        w.waiting ≡ true → w.wg ≡ 0 → Step w (record w { waiting = false; stopped = true })

  -- The states that some interleaving reaches from a new worker.
  pub data Reach (size : ℕ) : Worker F → Type 0 where
    init : Reach size (new_worker size)
    next : {v w : Worker F} → Reach size v → Step v w → Reach size w

-- Len
abbrev pub len_of : {F : Type 0} → Worker F → ℕ
len_of w = w.len
