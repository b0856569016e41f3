-- ===== src/Connector/Tcp/InOrder.antt =====
-- In which order connections come to onConnectFunc.
use mathlib.Core.List.{append-nil, append_assoc}
use xgame.Common.{
  ℕ, ◌≤◌, ◌≡◌, refl, sym, ap, ◌∙◌, List, [], ◌∷◌, ◌++◌, length, length-append, arith,
}
use xgame.Connector.Tcp.{
  Acceptor, testing, accepting, in_chan, finished, Line, Step, go_on, leave, accept, accept_error,
  accept_closed, put, take, stop, close_listener, Reach, init, next,
}

module _ {C : Type 0} where
  -- What the loop has in hand.
  abbrev pub in_hand : Acceptor C → List C
  in_hand testing = []
  in_hand accepting = []
  in_hand (in_chan c) = c ∷ []
  in_hand finished = []

  pub record IsInOrder (size : ℕ) (l : Line C) : Type 0 where
    pub in_order : l.accepted ≡ l.called ++ (l.conn_chan ++ in_hand l.acceptor)
    pub bounded : length l.conn_chan ≤ size
    pub same_size : l.size ≡ size

  -- The loop moves with nothing in hand, before and after.
  empty_handed :
      {size : ℕ} {l : Line C} (a : Acceptor C)
      → in_hand l.acceptor ≡ []
      → in_hand a ≡ []
      → IsInOrder size l
      → IsInOrder size (record l { acceptor = a })
  empty_handed {l} a before after k = record {
    in_order = k.in_order ∙ ap (λ xs. l.called ++ (l.conn_chan ++ xs)) (before ∙ sym after);
    bounded = k.bounded;
    same_size = k.same_size;
  }

  step-IsInOrder : {size : ℕ} {l m : Line C} → Step l m → IsInOrder size l → IsInOrder size m
  step-IsInOrder (go_on at running) k = empty_handed accepting (ap in_hand at) refl k
  step-IsInOrder (leave at stopped) k = empty_handed finished (ap in_hand at) refl k
  step-IsInOrder (accept_error at opened) k = empty_handed testing (ap in_hand at) refl k
  step-IsInOrder (accept_closed at closed) k = empty_handed testing (ap in_hand at) refl k
  step-IsInOrder {l} (accept c at opened) k = record {
    in_order =
        ap (λ xs. xs ++ c ∷ []) (k.in_order ∙ ap (λ a. l.called ++ (l.conn_chan ++ in_hand a)) at)
        ∙ simp (append-nil, append_assoc) refl;
    bounded = k.bounded;
    same_size = k.same_size;
  }
  step-IsInOrder {l} (put c at room) k = record {
    in_order =
        k.in_order ∙ ap (λ a. l.called ++ (l.conn_chan ++ in_hand a)) at ∙ simp append-nil refl;
    bounded = omega (arith, room, k.same_size, length-append {0} l.conn_chan (c ∷ []));
    same_size = k.same_size;
  }
  step-IsInOrder {l} (take c rest full) k = record {
    in_order =
        k.in_order
        ∙ ap (λ xs. l.called ++ (xs ++ in_hand l.acceptor)) full
        ∙ simp append_assoc refl;
    bounded = omega (arith, k.bounded, ap length full);
    same_size = k.same_size;
  }
  step-IsInOrder stop k = record {
    in_order = k.in_order;
    bounded = k.bounded;
    same_size = k.same_size;
  }
  step-IsInOrder (close_listener stopped) k = record {
    in_order = k.in_order;
    bounded = k.bounded;
    same_size = k.same_size;
  }

  -- At any time, the connections that Accept has returned are, in order and once each, those that onConnectFunc was
  -- called with, those in the channel, and the one that the loop has in hand. The channel is never over its size.
  pub Reach-IsInOrder : (size : ℕ) (l : Line C) → Reach size l → IsInOrder size l
  Reach-IsInOrder size l init = record { in_order = refl; bounded = omega arith; same_size = refl }
  Reach-IsInOrder size l (next {l = before} r s) = step-IsInOrder s (Reach-IsInOrder size before r)
