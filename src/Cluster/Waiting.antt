-- ===== src/Cluster/Waiting.antt =====
-- requestWait of framework/pkg/cluster/requester.go with the goroutines of the worker that run the callbacks: the
-- callback sends the answer on a channel without buffer, on which requestWait receives until its timeout.
use mathlib.Core.List.{Memᴰ}
use mathlib.Core.List.Memᴰ
use xgame.Common.{
  ℕ, ℕ_eq, suc, ◌<◌, ◌≡◌, refl, sym, ◌∙◌, subst, some, List, [], ◌∷◌, ◌++◌, arith, nat_eq_iff,
}
use xgame.Common.Map
use xgame.Common.Map.{Map, get-put, get-empty}
use xgame.Cluster.Callbacks.{Requester, new_requester, register_callback, unregister_callback}

-- A call of requestWait: in its select, or returned with the answer, the timeout, or the error of PackMessage or
-- SendBytes.
pub data Call (M : Type 0) : Type 0 where
  waiting : Call M
  answered : M → Call M
  timed_out : Call M
  not_sent : Call M

-- The callbacks by mid, each with the channel of its call; the calls by their channels; how many goroutines of the
-- worker wait for a function; and those that stand in a callback at `ch <- response`, with the mid, the channel and the
-- response.
pub record Waits (M : Type 0) : Type 0 where
  pub requester : Requester ℕ
  pub channels : ℕ  -- how many were made
  pub calls : Map ℕ (Call M)
  pub free : ℕ
  pub sending : List (ℕ × (ℕ × M))

abbrev pub new_waits : {M : Type 0} → ℕ → Waits M
new_waits workers = record {
  requester = new_requester;
  channels = 0;
  calls = Map.empty;
  free = workers;
  sending = [];
}

module _ {M : Type 0} where
  -- requestWait up to its select, or up to the return of an error
  abbrev pub asked : Call M → Waits M → Waits M
  asked call w = record w {
    requester = (register_callback (some w.channels) w.requester).1;
    channels = suc w.channels;
    calls = Map.put w.calls w.channels call;
  }

  pub data Step (w : Waits M) : Waits M → Type 0 where
    ask : Step w (asked waiting w)
    ask_refused : Step w (asked not_sent w)
    -- `case <-time.After(timeout)`: the callback stays registered
    timeout :
        (ch : ℕ)
        → Map.get w.calls ch ≡ some waiting
        → Step w (record w { calls = Map.put w.calls ch timed_out })
    -- A goroutine of the worker runs the callback of a response
    respond :
        (mid ch n : ℕ) (response : M)
        → w.free ≡ suc n
        → Map.get w.requester.handlers mid ≡ some ch
        → Step w (record w { free = n; sending = (mid, (ch, response)) ∷ w.sending })
    -- `ch <- response` and `case resp := <-ch` meet; the callback is unregistered
    meet :
        (xs ys : List (ℕ × (ℕ × M))) (mid ch : ℕ) (response : M)
        → w.sending ≡ xs ++ (mid, (ch, response)) ∷ ys
        → Map.get w.calls ch ≡ some waiting
        → Step w (record w {
          requester = unregister_callback mid w.requester;
          calls = Map.put w.calls ch (answered response);
          free = suc w.free;
          sending = xs ++ ys;
        })
    -- Any other function that was posted to the worker
    other : (n : ℕ) → w.free ≡ suc n → Step w w

  pub data Reach (workers : ℕ) : Waits M → Type 0 where
    init : Reach workers (new_waits workers)
    next : {w v : Waits M} → Reach workers w → Step w v → Reach workers v

  pub data Runs (w : Waits M) : Waits M → Type 0 where
    here : Runs w w
    then_ : {u v : Waits M} → Runs w u → Step u v → Runs w v

  -- Every goroutine of the worker is in a callback of a call that has timed out.
  pub record IsBlocked (w : Waits M) : Type 0 where
    pub busy : w.free ≡ 0
    pub late :
        (mid ch : ℕ) (response : M)
        → Memᴰ (mid, (ch, response)) w.sending
        → (Map.get w.calls ch ≡ some timed_out) × (ch < w.channels)

  -- A new call leaves those of the other channels alone.
  asked-IsBlocked : (call : Call M) (w : Waits M) → IsBlocked w → IsBlocked (asked call w)
  asked-IsBlocked call w k = record {
    busy = k.busy;
    late = λ mid ch response mem.
        let (at, old) = k.late mid ch response mem in
        (
          get-put w.calls w.channels ch call ∙ ground (arith, at, old, nat_eq_iff w.channels ch),
          omega (arith, old),
        );
  }

  step-IsBlocked : {w v : Waits M} → Step w v → IsBlocked w → IsBlocked v × (v.sending ≡ w.sending)
  step-IsBlocked {w} ask k = (asked-IsBlocked waiting w k, refl)
  step-IsBlocked {w} ask_refused k = (asked-IsBlocked not_sent w k, refl)
  step-IsBlocked {w} (timeout c at) k = (
    record {
      busy = k.busy;
      late = λ mid ch response mem.
          let (late, old) = k.late mid ch response mem in
          (get-put w.calls c ch timed_out ∙ ground (arith, late), old);
    },
    refl,
  )
  step-IsBlocked (respond mid ch n response free known) k = absurd (omega (arith, free, k.busy))
  step-IsBlocked {w} (meet xs ys mid ch response held at) k =
      let mem : Memᴰ (mid, (ch, response)) w.sending =
        subst (Memᴰ (mid, (ch, response))) (sym held) (Memᴰ.append_right xs (Memᴰ.head refl)) in
      absurd (cc (at, (k.late mid ch response mem).0))
  step-IsBlocked (other n free) k = absurd (omega (arith, free, k.busy))

  Runs-IsBlocked : {w v : Waits M} → Runs w v → IsBlocked w → IsBlocked v × (v.sending ≡ w.sending)
  Runs-IsBlocked here k = (k, refl)
  Runs-IsBlocked (then_ r s) k =
      let (k1, same) = Runs-IsBlocked r k in
      let (k2, same') = step-IsBlocked s k1 in (k2, same' ∙ same)

  -- The channels of the calls are those that were made.
  IsMade : Waits M → Type 0
  IsMade w = (ch : ℕ) (call : Call M) → Map.get w.calls ch ≡ some call → ch < w.channels

  asked-IsMade : (call : Call M) (w : Waits M) → IsMade w → IsMade (asked call w)
  unfolding IsMade
  asked-IsMade call w k ch old h =
      ground
        (arith, sym (get-put w.calls w.channels ch call) ∙ h, k ch old, nat_eq_iff w.channels ch)

  put-IsMade :
      (c : ℕ) (call here_ : Call M) (w : Waits M)
      → Map.get w.calls c ≡ some here_
      → IsMade w
      → (ch : ℕ) (old : Call M) → Map.get (Map.put w.calls c call) ch ≡ some old
      → ch < w.channels
  unfolding IsMade
  put-IsMade c call here_ w at k ch old h =
      ground (arith, sym (get-put w.calls c ch call) ∙ h, k ch old, k c here_ at, nat_eq_iff c ch)

  reach-IsMade : {workers : ℕ} {w : Waits M} → Reach workers w → IsMade w
  unfolding IsMade
  reach-IsMade init = λ ch call h. cc (get-empty {V = Call M} ch)
  reach-IsMade (next {w} r ask) = asked-IsMade waiting w (reach-IsMade r)
  reach-IsMade (next {w} r ask_refused) = asked-IsMade not_sent w (reach-IsMade r)
  reach-IsMade (next {w} r (timeout c at)) = put-IsMade c timed_out waiting w at (reach-IsMade r)
  reach-IsMade (next r (respond mid ch n response free known)) = reach-IsMade r
  reach-IsMade (next {w} r (meet xs ys mid ch response held at)) =
      put-IsMade ch (answered response) waiting w at (reach-IsMade r)
  reach-IsMade (next r (other n free)) = reach-IsMade r

  -- Late answers end the worker. When every goroutine of the worker runs a callback of requestWait of which the call
  -- has timed out, they stay there whatever happens after: no function that is posted is run any more, no response gets
  -- to its callback, and the callbacks in hand never return.
  pub late_answers_block :
      (workers : ℕ) (w v : Waits M)
      → Reach workers w
      → w.free ≡ 0
      → ((mid ch : ℕ) (response : M)
          → Memᴰ (mid, (ch, response)) w.sending
          → Map.get w.calls ch ≡ some timed_out)
      → Runs w v
      → (v.free ≡ 0) × (v.sending ≡ w.sending)
  unfolding IsMade
  late_answers_block workers w v r busy late runs =
      let (k, same) = Runs-IsBlocked runs (record {
        busy = busy;
        late = λ mid ch response mem.
            let at = late mid ch response mem in (at, reach-IsMade r ch timed_out at);
      }) in
      (k.busy, same)
