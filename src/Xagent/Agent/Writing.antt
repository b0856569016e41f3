-- ===== src/Xagent/Agent/Writing.antt =====
-- The order in which a connection's messages leave, and the bounds of its queues.
use mathlib.Core.List.{append_assoc}
use xgame.Common.{
  ℕ, ◌≤◌, ◌≡◌, ◌↔◌, refl, sym, ◌∙◌, ap, true, List, [], ◌∷◌, ◌++◌, length, length-append, nat_eq,
  Bool-cases, inl, inr, arith, Eq,
}
use xgame.Go.{Result, ok, err, panic}
use xgame.Pb.{MsgCommon, Proto}
use xgame.Packet.Registry.{Registry}
use xgame.Packet.Codec.{pack_message}
use xgame.Xagent.Agent.{
  Agent, Writer, selecting, sending, leaving, closing, ended, agent_closed, new_agent, close,
  after_pack, Step, respond_closed, respond_open, respond_full, respond_room, respond, take_pending,
  send_raw, take_write, die_seen, timeout, close_process, close_last, close_outside, Reach, init,
  next,
}

-- The frame that the writer holds.
abbrev pub held : Writer → List (List ℕ)
held (sending bytes) = bytes ∷ []
held selecting = []
held leaving = []
held closing = []
held ended = []

module _ {T M : Type 0} where
  pub record IsOrderly (a : Agent T M) : Type 0 where
    -- Nothing overtakes: messages are packed in the order in which they were accepted, and frames are written
    -- in the order in which they were packed.
    pub messages : a.accepted ≡ a.taken ++ a.ch_pending
    pub frames : a.packed ≡ a.written ++ (a.ch_write ++ held a.writer)
    pub pending_fit : length a.ch_pending ≤ a.backlog
    pub writes_fit : length a.ch_write ≤ a.backlog
    -- chDie is closed exactly when the state is closed, so that it is closed once.
    pub closed_once : (a.state ≡ agent_closed) ↔ (a.die ≡ true)

  new-IsOrderly : (backlog : ℕ) (reg : Registry T) → IsOrderly (new_agent backlog reg)
  new-IsOrderly backlog reg = record {
    messages = refl;
    frames = refl;
    pending_fit = omega arith;
    writes_fit = omega arith;
    closed_once = (λ h. absurd (omega arith), λ h. cc);
  }

  close-IsOrderly : (a : Agent T M) → IsOrderly a → IsOrderly (close a)
  unfolding close
  close-IsOrderly a k = elim (Bool-cases (nat_eq a.state agent_closed)) [
    | inl closed ↦ rw closed k
    | inr other ↦ rw other (record {
      messages = k.messages;
      frames = k.frames;
      pending_fit = k.pending_fit;
      writes_fit = k.writes_fit;
      closed_once = (λ h. refl, λ h. refl);
    })
  ]

  closing_held : (a : Agent T M) → a.writer ≡ closing → held ended ≡ held (close a).writer
  unfolding close
  closing_held a h = elim (Bool-cases (nat_eq a.state agent_closed)) [
    | inl closed ↦ rw closed (ap held (sym h))
    | inr other ↦ rw other (ap held (sym h))
  ]

  writer-IsOrderly :
      (a : Agent T M) (w : Writer)
      → IsOrderly a
      → held w ≡ held a.writer
      → IsOrderly (record a { writer = w })
  writer-IsOrderly a w k same = record {
    messages = k.messages;
    frames = k.frames ∙ ap (λ xs. a.written ++ (a.ch_write ++ xs)) (sym same);
    pending_fit = k.pending_fit;
    writes_fit = k.writes_fit;
    closed_once = k.closed_once;
  }

module _ {T M : Type 0} ⦃e : Eq T⦄ (p : Proto T M) where
  after_pack-IsOrderly :
      (y : Result (MsgCommon × List ℕ) × Registry T) (a : Agent T M)
      → a.writer ≡ selecting
      → IsOrderly a
      → IsOrderly (after_pack p y a)
  unfolding after_pack
  after_pack-IsOrderly (ok (c, bytes), reg) a idle k = record {
    messages = k.messages;
    frames =
        ap (λ xs. xs ++ bytes ∷ []) (k.frames ∙ ap (λ w. a.written ++ (a.ch_write ++ held w)) idle)
        ∙ simp append_assoc;
    pending_fit = k.pending_fit;
    writes_fit = k.writes_fit;
    closed_once = k.closed_once;
  }
  after_pack-IsOrderly (err x, reg) a idle k = record {
    messages = k.messages;
    frames = k.frames;
    pending_fit = k.pending_fit;
    writes_fit = k.writes_fit;
    closed_once = k.closed_once;
  }
  after_pack-IsOrderly (panic x, reg) a idle k = record {
    messages = k.messages;
    frames = k.frames ∙ ap (λ w. a.written ++ (a.ch_write ++ held w)) idle;
    pending_fit = k.pending_fit;
    writes_fit = k.writes_fit;
    closed_once = k.closed_once;
  }

  Step-IsOrderly : {a b : Agent T M} → Step p a b → IsOrderly a → IsOrderly b
  Step-IsOrderly (respond_closed h) k = k
  Step-IsOrderly (respond_open x h) k = record {
    messages = k.messages;
    frames = k.frames;
    pending_fit = k.pending_fit;
    writes_fit = k.writes_fit;
    closed_once = k.closed_once;
  }
  Step-IsOrderly (respond_full xs x ys h full) k = record {
    messages = k.messages;
    frames = k.frames;
    pending_fit = k.pending_fit;
    writes_fit = k.writes_fit;
    closed_once = k.closed_once;
  }
  Step-IsOrderly (respond_room xs x ys h room) k = record {
    messages = k.messages;
    frames = k.frames;
    pending_fit = k.pending_fit;
    writes_fit = k.writes_fit;
    closed_once = k.closed_once;
  }
  Step-IsOrderly {a} (respond xs x ys h room) k = record {
    messages = ap (λ zs. zs ++ x ∷ []) k.messages ∙ append_assoc a.taken a.ch_pending (x ∷ []);
    frames = k.frames;
    pending_fit = omega (arith, length-append a.ch_pending (x ∷ []));
    writes_fit = k.writes_fit;
    closed_once = k.closed_once;
  }
  Step-IsOrderly {a} (take_pending x rest idle h) k =
      after_pack-IsOrderly (pack_message p x.0 x.1 a.registry)
        (record a { ch_pending = rest; taken = a.taken ++ x ∷ [] }) idle
        (record {
          messages =
              k.messages ∙ ap (λ zs. a.taken ++ zs) h ∙ sym (append_assoc a.taken (x ∷ []) rest);
          frames = k.frames;
          pending_fit = omega (arith, k.pending_fit, ap length h);
          writes_fit = k.writes_fit;
          closed_once = k.closed_once;
        })
  Step-IsOrderly {a} (send_raw bytes h room) k = record {
    messages = k.messages;
    frames = k.frames ∙ ap (λ w. a.written ++ (a.ch_write ++ held w)) h ∙ simp append_assoc;
    pending_fit = k.pending_fit;
    writes_fit = omega (arith, length-append a.ch_write (bytes ∷ []));
    closed_once = k.closed_once;
  }
  Step-IsOrderly {a} (take_write bytes rest idle h) k = record {
    messages = k.messages;
    frames = k.frames ∙ ap (λ zs. a.written ++ (zs ++ held a.writer)) h ∙ simp append_assoc;
    pending_fit = k.pending_fit;
    writes_fit = omega (arith, k.writes_fit, ap length h);
    closed_once = k.closed_once;
  }
  Step-IsOrderly {a} (die_seen h d) k = writer-IsOrderly a leaving k (ap held (sym h))
  Step-IsOrderly {a} (timeout h) k = writer-IsOrderly a leaving k (ap held (sym h))
  Step-IsOrderly {a} (close_process h) k =
      writer-IsOrderly (record a { write_closed = true }) closing
        (record {
          messages = k.messages;
          frames = k.frames;
          pending_fit = k.pending_fit;
          writes_fit = k.writes_fit;
          closed_once = k.closed_once;
        })
        (ap held (sym h))
  Step-IsOrderly {a} (close_last h) k =
      writer-IsOrderly (close a) ended (close-IsOrderly a k) (closing_held a h)
  Step-IsOrderly {a} close_outside k = close-IsOrderly a k

  -- In every state that an interleaving of responders, the two goroutines and calls of Close reaches, messages
  -- are taken from chPending in the order in which sendPending put them there, and frames are written in the
  -- order in which they were packed; both queues hold no more than the backlog; and chDie is closed exactly
  -- when the state is closed.
  pub Reach-IsOrderly :
      {backlog : ℕ} {reg : Registry T} {a : Agent T M} → Reach p backlog reg a → IsOrderly a
  Reach-IsOrderly {backlog} {reg} init = new-IsOrderly backlog reg
  Reach-IsOrderly (next r s) = Step-IsOrderly s (Reach-IsOrderly r)
