-- ===== src/Xagent/Agent/Deadlock.antt =====
-- The goroutine of writeChan puts frames into the channel that it alone empties.
use xgame.Common.{
  false, subst, ℕ, ◌≤◌, ◌<◌, ◌≡◌, refl, ap, List, [], ◌∷◌, ◌++◌, length, nat_eq, Bool-cases, inl,
  inr, arith, Eq,
}
use xgame.Go.{ok}
use xgame.Pb.{MsgCommon, Proto}
use xgame.Packet.Registry.{Registry}
use xgame.Packet.Codec.{pack_message}
use xgame.Xagent.Agent.{
  Agent, selecting, sending, close, after_pack, is_closed, Step, respond_closed, respond_open,
  respond_full, respond_room, respond, take_pending, send_raw, take_write, die_seen, timeout,
  close_process, close_last, close_outside, Reach, init, next,
}

module _ {T M : Type 0} where
  -- The writer is at SendRaw, and chWrite is full.
  pub record IsStuck (a : Agent T M) : Type 0 where
    pub frame : List ℕ
    pub at_send : a.writer ≡ sending frame
    pub full : a.backlog ≤ length a.ch_write

  close-IsStuck : (a : Agent T M) → IsStuck a → IsStuck (close a)
  unfolding close
  close-IsStuck a k = elim (Bool-cases (nat_eq a.state 3)) [
    | inl closed ↦ rw closed k
    | inr other ↦ rw other (record { frame = k.frame; at_send = k.at_send; full = k.full })
  ]

module _ {T M : Type 0} ⦃e : Eq T⦄ (p : Proto T M) where
  -- A writer that is stuck stays stuck, whatever step comes, a Close among them.
  pub Step-IsStuck : {a b : Agent T M} → Step p a b → IsStuck a → IsStuck b
  Step-IsStuck (respond_closed h) k = k
  Step-IsStuck (respond_open x h) k = record { frame = k.frame; at_send = k.at_send; full = k.full }
  Step-IsStuck (respond_full xs x ys h full) k = record {
    frame = k.frame;
    at_send = k.at_send;
    full = k.full;
  }
  Step-IsStuck (respond_room xs x ys h room) k = record {
    frame = k.frame;
    at_send = k.at_send;
    full = k.full;
  }
  Step-IsStuck (respond xs x ys h room) k = record {
    frame = k.frame;
    at_send = k.at_send;
    full = k.full;
  }
  Step-IsStuck (take_pending x rest idle h) k = absurd (cc (idle, k.at_send))
  Step-IsStuck (send_raw bytes h room) k = absurd (omega (arith, k.full))
  Step-IsStuck (take_write bytes rest idle h) k = absurd (cc (idle, k.at_send))
  Step-IsStuck (die_seen h d) k = absurd (cc (h, k.at_send))
  Step-IsStuck (timeout h) k = absurd (cc (h, k.at_send))
  Step-IsStuck (close_process h) k = absurd (cc (h, k.at_send))
  Step-IsStuck (close_last h) k = absurd (cc (h, k.at_send))
  Step-IsStuck {a} close_outside k = close-IsStuck a k

  -- The step of a writer that takes a message whose packing succeeds.
  packed_step :
      (a : Agent T M) (x : MsgCommon × M) (rest : List (MsgCommon × M)) (c : MsgCommon)
      (bytes : List ℕ)
      → a.writer ≡ selecting
      → a.ch_pending ≡ x ∷ rest
      → pack_message p x.0 x.1 a.registry ≡ (ok (c, bytes), a.registry)
      → Step p a (record a {
        ch_pending = rest;
        taken = a.taken ++ x ∷ [];
        packed = a.packed ++ bytes ∷ [];
        writer = sending bytes;
      })
  unfolding after_pack
  packed_step a x rest c bytes idle h packs =
      subst (Step p a)
        (ap (λ y. after_pack p y (record a { ch_pending = rest; taken = a.taken ++ x ∷ [] })) packs)
        (take_pending x rest idle h)

  -- One message, from Response to the writer.
  answered :
      {backlog : ℕ} {reg : Registry T} {a : Agent T M} (x : MsgCommon × M) (c : MsgCommon)
      (bytes : List ℕ)
      → Reach p backlog reg a
      → is_closed a ≡ false
      → length a.ch_pending < a.backlog
      → a.writer ≡ selecting
      → a.ch_pending ≡ []
      → a.checking ≡ []
      → a.responding ≡ []
      → pack_message p x.0 x.1 a.registry ≡ (ok (c, bytes), a.registry)
      → Reach p backlog reg (record a {
        checking = [];
        responding = [];
        accepted = a.accepted ++ x ∷ [];
        ch_pending = [];
        taken = a.taken ++ x ∷ [];
        packed = a.packed ++ bytes ∷ [];
        writer = sending bytes;
      })
  answered {a} x c bytes r open_state room idle none_pending none_checking none_responding packs =
      next
        (next
          (next (next r (respond_open x open_state))
            (respond_room [] x [] (ap (λ zs. x ∷ zs) none_checking) room))
          (respond [] x [] (ap (λ zs. x ∷ zs) none_responding) room))
        (packed_step _ x [] c bytes idle (ap (λ zs. zs ++ x ∷ []) none_pending) packs)

  -- With a backlog of one, two answers of a message whose packing succeeds are enough to get the writer stuck:
  -- it takes the second one from chPending before it has emptied chWrite.
  pub writer_blocks :
      (reg : Registry T) (x : MsgCommon × M) (c : MsgCommon) (bytes : List ℕ)
      → pack_message p x.0 x.1 reg ≡ (ok (c, bytes), reg)
      → (a : Agent T M) × Reach p 1 reg a × IsStuck a
  writer_blocks reg x c bytes packs = (
    _,
    answered x c bytes
        (next (answered x c bytes init refl (omega arith) refl refl refl refl packs)
          (send_raw bytes refl (omega arith)))
        refl (omega arith) refl refl refl refl packs,
    record { frame = bytes; at_send = refl; full = omega arith },
  )
