-- ===== src/Packet/Codec/Unknown.antt =====
-- ReadMessage of a frame whose message type the reading process has not registered.
use native.Mathlib.Nat.{mod-eq_of_lt}
use xgame.Common.{ℕ, ℕ_eq, ◌≡◌, refl, ap, ◌∙◌, Option, none, List, ◌++◌, length, Eq, [], ◌∷◌}
use xgame.Go.{err, ok}
use xgame.Go.Errors.{Error, errorf}
use xgame.Go.Fmt.{num}
use xgame.Pb.{MsgCommon, Proto}
use xgame.Packet.Registry.{Registry, message_type}
use xgame.Packet.Registry.Consistency.{IsConsistent}
use xgame.Packet.Registry.Outcomes.{on_unmarshal-unknown}
use xgame.Packet.Codec.{read_bodies, read_message, pack_message}
use xgame.Packet.Codec.Framing.{reader, read_limit-append, read_message-header}
use xgame.Packet.Codec.RoundTrip.{IsLossless, Fits, pack_message_inv, frame-append}

module _ {T M : Type 0} ⦃e : Eq T⦄ (p : Proto T M) where
  -- With a protobuf that undoes its marshalling: what PackMessage returns on a consistent registry is refused by
  -- ReadMessage of a process that has nothing registered under its route, and what follows is left unread.
  pub read-pack-unknown :
      (lossless : IsLossless p) (r reg : Registry T) (c c' : MsgCommon) (m : M)
      (bytes rest : List ℕ) (f : Option Error)
      → IsConsistent p r
      → (pack_message p c m r).0 ≡ ok (c', bytes)
      → Fits p c' m
      → message_type reg c'.route ≡ none
      → read_message p reg (reader (bytes ++ rest) f)
        ≡ (err (errorf "message %v not registered" (num c'.route ∷ [])), reader rest f)
  unfolding read_bodies
  read-pack-unknown lossless r reg c c' m bytes rest f k h fits unknown =
      let v = pack_message_inv p c c' m bytes r k h in
      let small = fits.common v.raw_common v.common_marshalled in
      let small' = fits.message v.raw_msg v.message_marshalled in
      ap (λ xs. read_message p reg (reader xs f))
        (ap (λ xs. xs ++ rest) v.framed ∙ frame-append p v.raw_common v.raw_msg rest)
      ∙ read_message-header p reg (length v.raw_common) (length v.raw_msg) _ f
      ∙ rw
          (
            mod-eq_of_lt small,
            mod-eq_of_lt small',
            read_limit-append,
            lossless.common c' v.raw_common v.common_marshalled,
            read_limit-append,
            on_unmarshal-unknown p reg c'.route v.raw_msg unknown,
          )
          refl
