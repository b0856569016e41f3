-- ===== src/Packet/Codec/Stream.antt =====
-- Several messages packed one after another onto one connection, and the reading loop at its other end.
use mathlib.Core.Option
use xgame.Common.{
  ℕ, suc, ◌≡◌, sym, ap, ◌∙◌, subst, none, some, List, [], ◌∷◌, ◌++◌, length, Eq, arith,
}
use xgame.Go.{Result, ok, Exec, ◌>>=◌, pure, continue-ok, continue-keeps}
use xgame.Go.Errors.{packet_connect_closed}
use xgame.Pb.{MsgCommon, Proto}
use xgame.Packet.Registry.{Registry, message_type, on_marshal}
use xgame.Packet.Registry.Consistency.{IsConsistent, on_marshal-IsConsistent}
use xgame.Packet.Codec.{pack_message}
use xgame.Packet.Codec.Framing.{reader}
use xgame.Packet.Codec.RoundTrip.{IsLossless, Fits, read-pack}
use xgame.Packet.Codec.Loop.{Messages, read_loop-stop, read_loop, read_loop-step, stopped}
use xgame.Packet.Codec.Malformed.{read_message-short}

module _ {T M : Type 0} ⦃e : Eq T⦄ (p : Proto T M) where
  -- Calls of PackMessage in order: the messages with the MsgCommon of each frame, and the bytes.
  unfoldable pub pack_all : List (MsgCommon × M) → Exec (Registry T) (Messages p × List ℕ)
  pack_all [] = pure ([], [])
  pack_all ((c, m) ∷ rest) = do
    out ← pack_message p c m
    more ← pack_all rest
    pure ((out.0, m) ∷ more.0, out.1 ++ more.1)

  pub pack_message-IsConsistent :
      (c : MsgCommon) (m : M) (r : Registry T)
      → IsConsistent p r
      → IsConsistent p (pack_message p c m r).1
  unfolding pack_message
  pack_message-IsConsistent c m r k =
      continue-keeps (IsConsistent p) (on_marshal p m r).0 _ (on_marshal p m r).1
        (on_marshal-IsConsistent p m r k)
        λ routed s h.
          continue-keeps (IsConsistent p) (p.marshal_common (record c { route = routed.0 })) _ s h
            λ raw t h'. h'

  pub ok-pair :
      (xs ys : Messages p) (bs cs : List ℕ)
      → ◌≡◌ {A = Result (Messages p × List ℕ)} (ok (xs, bs)) (ok (ys, cs))
      → (xs ≡ ys) × (bs ≡ cs)
  ok-pair xs ys bs cs h = ground arith

  -- Every message of the list fits its frame, and the reading side knows its type.
  abbrev pub Readable : Registry T → Messages p → Type 0
  Readable reg [] = Unit
  Readable reg ((c, m) ∷ rest) =
      (Fits p c m × (message_type reg c.route ≡ some (p.type_of m))) × Readable reg rest

  pub read_loop-end :
      (reg : Registry T)
      → read_loop p 1 reg (reader [] none) ≡ some ([], stopped packet_connect_closed)
  read_loop-end reg =
      read_loop-stop p 0 reg (reader [] none) packet_connect_closed
        (read_message-short p reg [] none (omega arith))

  -- With a protobuf that undoes its marshalling, the reading loop on the bytes of any number of
  -- PackMessage calls, the first of them on a consistent registry, returns exactly the packed
  -- messages, in order, and then stops because the connection is closed, when all fit their frames
  -- and the reading side knows their types.
  pub read_loop-pack_all :
      (lossless : IsLossless p) (reg : Registry T) (ms sent : Messages p) (r : Registry T)
      (bytes : List ℕ)
      → IsConsistent p r
      → (pack_all ms r).0 ≡ ok (sent, bytes)
      → Readable reg sent
      → read_loop p (suc (length ms)) reg (reader bytes none)
        ≡ some (sent, stopped packet_connect_closed)
  unfolding pack_all
  read_loop-pack_all lossless reg [] sent r bytes k h v =
      let (e1, e2) = ok-pair [] sent [] bytes h in rw (← e1, ← e2) (read_loop-end reg)
  read_loop-pack_all lossless reg ((c, m) ∷ ms) sent r bytes k h v =
      let (out, packed, step, h1) =
        continue-ok (pack_message p c m r).0
          (λ out. pack_all ms >>= λ more. pure ((out.0, m) ∷ more.0, out.1 ++ more.1))
          (pack_message p c m r).1 h in
      let (more, packed', step', h2) =
        continue-ok (pack_all ms (pack_message p c m r).1).0
          (λ more. pure ((out.0, m) ∷ more.0, out.1 ++ more.1))
          (pack_all ms (pack_message p c m r).1).1 h1 in
      let (e1, e2) = ok-pair ((out.0, m) ∷ more.0) sent (out.1 ++ more.1) bytes h2 in
      let seen = subst (Readable reg) (sym e1) v in
      rw (← e1, ← e2)
        (read_loop-step p (suc (length ms)) reg (out.0, m) out.1 more.1 none
            (λ rest f. read-pack p lossless r reg c out.0 m out.1 rest f k packed seen.0.0 seen.0.1)
          ∙ ap (Option.map (λ rest. ((out.0, m) ∷ rest.0, rest.1))) (
              read_loop-pack_all lossless reg ms more.0 (pack_message p c m r).1 more.1
                (pack_message-IsConsistent c m r k) packed' seen.1))
