-- ===== src/Connector/Tcp/Served.antt =====
-- That every connection comes to onConnectFunc, and that the loop ends, after Stop.
use mathlib.Core.List.{append-nil}
use xgame.Common.{
  ℕ, suc, ◌+◌, ◌<◌, ◌≡◌, ◌⊎◌, refl, sym, ap, ◌∙◌, false, inl, inr, List, [], ◌∷◌, ◌++◌, length,
  length-append, arith,
}
use xgame.Connector.Tcp.{
  Acceptor, testing, accepting, in_chan, finished, Line, Step, go_on, leave, accept, accept_error,
  accept_closed, put, take, stop, close_listener, stop_running, without_listener, Reach, next,
}
use xgame.Connector.Tcp.InOrder.{in_hand, IsInOrder, Reach-IsInOrder}

module _ {C : Type 0} where
  -- A step of the loop of Start or of the goroutine of Connector.Start, and not of Stop.
  abbrev pub IsServing : {l m : Line C} → Step l m → Type 0
  IsServing (go_on at running) = Unit
  IsServing (leave at stopped) = Unit
  IsServing (accept c at opened) = Unit
  IsServing (accept_error at opened) = Unit
  IsServing (accept_closed at closed) = Unit
  IsServing (put c at room) = Unit
  IsServing (take c rest full) = Unit
  IsServing stop = ⊥
  IsServing (close_listener stopped) = ⊥

  -- Runs of that many such steps, in any order.
  pub data Serving (l : Line C) : ℕ → Line C → Type 0 where
    here : Serving l 0 l
    more :
        {n : ℕ} {m k : Line C} → Serving l n m → (s : Step m k) → IsServing s → Serving l (suc n) k

  pub record CanServe (l : Line C) : Type 0 where
    pub after : Line C
    pub step : Step l after
    pub serving : IsServing step

  -- The steps that the loop has left from here, when the connector is stopped.
  abbrev pub loop_left : Acceptor C → ℕ
  loop_left finished = 0
  loop_left testing = 1
  loop_left accepting = 2
  loop_left (in_chan c) = 3

  -- And those of the loop and the goroutine.
  abbrev pub steps_left : Line C → ℕ
  steps_left l = length l.conn_chan + loop_left l.acceptor

  -- What Stop has done.
  record IsStopped (l : Line C) : Type 0 where
    running : l.running ≡ false
    listener_open : l.listener_open ≡ false

  step-IsStopped :
      {l m : Line C} (s : Step l m)
      → IsServing s
      → IsStopped l
      → IsStopped m × (suc (steps_left m) ≡ steps_left l) × (m.accepted ≡ l.accepted)
  step-IsStopped (go_on at running) serves k = cc (running, k.running)
  step-IsStopped (leave at stopped) serves k = (
    record { running = k.running; listener_open = k.listener_open },
    omega (arith, ap loop_left at),
    refl,
  )
  step-IsStopped (accept c at opened) serves k = cc (opened, k.listener_open)
  step-IsStopped (accept_error at opened) serves k = cc (opened, k.listener_open)
  step-IsStopped (accept_closed at closed) serves k = (
    record { running = k.running; listener_open = k.listener_open },
    omega (arith, ap loop_left at),
    refl,
  )
  step-IsStopped {l} (put c at room) serves k = (
    record { running = k.running; listener_open = k.listener_open },
    omega (arith, ap loop_left at, length-append {0} l.conn_chan (c ∷ [])),
    refl,
  )
  step-IsStopped (take c rest full) serves k = (
    record { running = k.running; listener_open = k.listener_open },
    omega (arith, ap length full),
    refl,
  )
  step-IsStopped stop serves k = elim serves [ ]
  step-IsStopped (close_listener stopped) serves k = elim serves [ ]

  serving-IsStopped :
      {l m : Line C} {n : ℕ}
      → IsStopped l
      → Serving l n m
      → IsStopped m × (n + steps_left m ≡ steps_left l) × (m.accepted ≡ l.accepted)
  serving-IsStopped k here = (k, omega arith, refl)
  serving-IsStopped k (more run s serves) =
      let (k', left, same) = serving-IsStopped k run in
      let (k'', fewer, kept) = step-IsStopped s serves k' in
      (k'', omega (arith, left, fewer), kept ∙ same)

  serving-Reach :
      {size : ℕ} {l : Line C} {n : ℕ} {m : Line C} → Reach size l → Serving l n m → Reach size m
  serving-Reach r here = r
  serving-Reach r (more run s serves) = next (serving-Reach r run) s

  -- The loop has ended, and everything that was accepted was handed over.
  pub record IsServed (l : Line C) : Type 0 where
    pub ended : l.acceptor ≡ finished
    pub empty : l.conn_chan ≡ []
    pub called : l.called ≡ l.accepted

  loop_moves :
      {size : ℕ} (l : Line C) (a : Acceptor C)
      → l.acceptor ≡ a
      → l.conn_chan ≡ []
      → 0 < size
      → IsStopped l
      → IsInOrder size l
      → IsServed l ⊎ CanServe l
  loop_moves l testing at empty positive k o =
      inr (record { after = _; step = leave at k.running; serving = tt })
  loop_moves l accepting at empty positive k o =
      inr (record { after = _; step = accept_closed at k.listener_open; serving = tt })
  loop_moves l (in_chan c) at empty positive k o = inr (record {
    after = _;
    step = put c at (omega (arith, positive, ap length empty, o.same_size));
    serving = tt;
  })
  loop_moves l finished at empty positive k o = inl (record {
    ended = at;
    empty = empty;
    called = sym (
        o.in_order
        ∙ ap (λ xs. l.called ++ (xs ++ in_hand l.acceptor)) empty
        ∙ ap (λ a. l.called ++ in_hand a) at
        ∙ append-nil l.called);
  })

  moves :
      {size : ℕ} (l : Line C) (xs : List C)
      → l.conn_chan ≡ xs
      → 0 < size
      → IsStopped l
      → IsInOrder size l
      → IsServed l ⊎ CanServe l
  moves l [] empty positive k o = loop_moves l l.acceptor refl empty positive k o
  moves l (c ∷ rest) full positive k o =
      inr (record { after = _; step = take c rest full; serving = tt })

  -- The end of a TCPConnector. In any state that is reached with a channel that can hold a connection, let Stop reset
  -- `running` and close the listener. Then every run of the loop of Start and the goroutine of Connector.Start, in any
  -- order of their steps, accepts no connection more, and each of its steps is one of the `steps_left` that there
  -- were; and where a run cannot go on, the loop has ended, the channel is empty and onConnectFunc was called with all
  -- that Accept has ever returned, in order and once each. This is for an onConnectFunc that returns, and an Accept
  -- that returns an error once the listener is closed.
  pub all_called :
      (size : ℕ) {n : ℕ} {l m : Line C}
      → 0 < size
      → Reach size l
      → Serving (without_listener (stop_running l)) n m
      → (n + steps_left m ≡ steps_left l) × (m.accepted ≡ l.accepted) × (IsServed m ⊎ CanServe m)
  all_called size {l} {m} positive r run =
      let stopped : IsStopped (without_listener (stop_running l)) = record {
        running = refl;
        listener_open = refl;
      } in
      let (k, left, same) = serving-IsStopped stopped run in
      let reached = serving-Reach (next (next r stop) (close_listener refl)) run in
      (left, same, moves m m.conn_chan refl positive k (Reach-IsInOrder size m reached))
