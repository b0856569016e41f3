-- ===== src/Xagent/Agent/Client.antt =====
-- What a client reads of the messages that are given to its agent.
pub mod Frames
use mathlib.Core.Option as Option
use mathlib.Core.List.{append_assoc}
use xgame.Common.{
  ℕ, suc, ◌≡◌, ◌≢◌, refl, sym, ap, ◌∙◌, subst, none, some, Bool-cases, inl, inr, nat_eq, List, [],
  ◌∷◌, ◌++◌, length, Eq,
}
use xgame.Go.{Result, ok, err, panic}
use xgame.Go.Errors.{packet_connect_closed}
use xgame.Pb.{MsgCommon, Proto}
use xgame.Packet.Registry.{Registry}
use xgame.Packet.Registry.Consistency.{IsConsistent}
use xgame.Packet.Codec.{pack_message}
use xgame.Packet.Codec.Framing.{reader}
use xgame.Packet.Codec.RoundTrip.{IsLossless, read-pack}
use xgame.Packet.Codec.Loop.{Messages, read_loop, read_loop-step, stopped}
use xgame.Packet.Codec.Stream.{Readable, read_loop-end, pack_message-IsConsistent}
use xgame.Xagent.Agent.{
  Agent, agent_closed, close, after_pack, Step, respond_closed, respond_open, respond_full,
  respond_room, respond, take_pending, send_raw, take_write, die_seen, timeout, close_process,
  close_last, close_outside, Reach, init, next,
}
use xgame.Xagent.Agent.Writing.{held, Reach-IsOrderly}
use Frames.{concat, Framed, frame, nothing, framed_append, dropped_last, framed_prefix, reads}

module _ {T M : Type 0} ⦃e : Eq T⦄ (p : Proto T M) where
  -- What was taken, as it was framed.
  record IsFramed (a : Agent T M) : Type 0 where
    consistent : IsConsistent p a.registry
    sent : Messages p
    framed : Framed p a.taken sent a.packed

  after_pack-IsFramed :
      (a : Agent T M) (c : MsgCommon) (m : M) (x : Result (MsgCommon × List ℕ)) (s : Registry T)
      → pack_message p c m a.registry ≡ (x, s)
      → IsFramed a
      → (rest : List (MsgCommon × M))
      → IsFramed
          (after_pack p (x, s) (record a { ch_pending = rest; taken = a.taken ++ (c, m) ∷ [] }))
  unfolding after_pack
  after_pack-IsFramed a c m (ok (c', bytes)) s q k rest = record {
    consistent =
        subst (IsConsistent p) (ap (λ y. y.1) q)
          (pack_message-IsConsistent p c m a.registry k.consistent);
    sent = k.sent ++ (c', m) ∷ [];
    framed =
        framed_append p k.framed
          (frame a.registry c c' m bytes k.consistent (ap (λ y. y.0) q) nothing);
  }
  after_pack-IsFramed a c m (err x) s q k rest = record {
    consistent =
        subst (IsConsistent p) (ap (λ y. y.1) q)
          (pack_message-IsConsistent p c m a.registry k.consistent);
    sent = k.sent;
    framed = dropped_last p a.registry c m (λ out h. cc (q, h)) k.framed;
  }
  after_pack-IsFramed a c m (panic x) s q k rest = record {
    consistent =
        subst (IsConsistent p) (ap (λ y. y.1) q)
          (pack_message-IsConsistent p c m a.registry k.consistent);
    sent = k.sent;
    framed = dropped_last p a.registry c m (λ out h. cc (q, h)) k.framed;
  }

  close-IsFramed : (a : Agent T M) → IsFramed a → IsFramed (close a)
  unfolding close
  close-IsFramed a k = elim (Bool-cases (nat_eq a.state agent_closed)) [
    | inl closed ↦ simp closed k
    | inr other ↦
        simp other (record { consistent = k.consistent; sent = k.sent; framed = k.framed })
  ]

  -- Steps that leave these fields alone.
  kept :
      (a b : Agent T M)
      → b.registry ≡ a.registry
      → b.taken ≡ a.taken
      → b.packed ≡ a.packed
      → IsFramed a
      → IsFramed b
  kept a b registry taken packed k = record {
    consistent = subst (IsConsistent p) (sym registry) k.consistent;
    sent = k.sent;
    framed =
        subst (λ t. Framed p t k.sent b.packed) (sym taken)
          (subst (Framed p a.taken k.sent) (sym packed) k.framed);
  }

  step-IsFramed : {a b : Agent T M} → Step p a b → IsFramed a → IsFramed b
  step-IsFramed (respond_closed h) k = k
  step-IsFramed {a} {b} (respond_open x h) k = kept a b refl refl refl k
  step-IsFramed {a} {b} (respond_full xs x ys h full) k = kept a b refl refl refl k
  step-IsFramed {a} {b} (respond_room xs x ys h room) k = kept a b refl refl refl k
  step-IsFramed {a} {b} (respond xs x ys h room) k = kept a b refl refl refl k
  step-IsFramed {a} (take_pending (c, m) rest h q) k =
      let (x, s) = pack_message p c m a.registry in after_pack-IsFramed a c m x s refl k rest
  step-IsFramed {a} {b} (send_raw bytes h room) k = kept a b refl refl refl k
  step-IsFramed {a} {b} (take_write bytes rest h q) k = kept a b refl refl refl k
  step-IsFramed {a} {b} (die_seen h q) k = kept a b refl refl refl k
  step-IsFramed {a} {b} (timeout h) k = kept a b refl refl refl k
  step-IsFramed {a} {b} (close_process h) k = kept a b refl refl refl k
  step-IsFramed {a} {b} (close_last h) k = kept (close a) b refl refl refl (close-IsFramed a k)
  step-IsFramed {a} close_outside k = close-IsFramed a k

  reach-IsFramed :
      {backlog : ℕ} {reg : Registry T} {a : Agent T M}
      → IsConsistent p reg
      → Reach p backlog reg a
      → IsFramed a
  reach-IsFramed k init = record { consistent = k; sent = []; framed = nothing }
  reach-IsFramed k (next r s) = step-IsFramed s (reach-IsFramed k r)

  -- From Response to the client. In every state that an interleaving of responders, the two goroutines and calls of Close
  -- reaches, the frames that were given to conn.Write are those of a first part of the messages that sendPending put into
  -- chPending, in order, without the ones that PackMessage refused. A client that gets their bytes and knows their types
  -- reads exactly these messages, in order, and then that the connection is closed. This is for a protobuf that undoes
  -- its marshalling, a registry that was consistent at first, and messages that fit their frames.
  pub client_reads :
      (lossless : IsLossless p) (backlog : ℕ) (reg : Registry T) (a : Agent T M)
      → IsConsistent p reg
      → Reach p backlog reg a
      → (given : List (MsgCommon × M)) × (rest : List (MsgCommon × M)) × (sent : Messages p)
        × (a.accepted ≡ given ++ rest)
        × Framed p given sent a.written
        × ((client : Registry T)
            → Readable p client sent
            → read_loop p (suc (length sent)) client (reader (concat a.written) none)
              ≡ some (sent, stopped packet_connect_closed))
  client_reads lossless backlog reg a k r =
      let o = Reach-IsOrderly p r in
      let (given, rest, sent, split, framed) =
        framed_prefix p (reach-IsFramed k r).framed a.written (a.ch_write ++ held a.writer)
          o.frames in
      (
        given,
        rest ++ a.ch_pending,
        sent,
        o.messages ∙ ap (λ xs. xs ++ a.ch_pending) split ∙ append_assoc given rest a.ch_pending,
        framed,
        λ client seen. reads p lossless client framed seen,
      )
