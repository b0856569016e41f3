-- ===== src/Packet/Codec/RoundTrip.antt =====
-- PackMessage against ReadMessage: what was packed is read back, alone and in a stream.
use mathlib.Core.List.{append_assoc}
use native.Mathlib.Nat.{mod-eq_of_lt}
use xgame.Common.{
  ℕ, ◌^◌, ◌<◌, ◌≡◌, refl, sym, ◌∙◌, ap, subst, Option, some, List, ◌++◌, length, arith, Eq,
}
use xgame.Go.{Result, ok, err, panic, continue, pure}
use xgame.Go.Errors.{Error}
use xgame.Pb.{MsgCommon, Proto}
use xgame.Packet.Registry.{Registry, type_hash, message_type, on_marshal}
use xgame.Packet.Registry.Consistency.{IsConsistent}
use xgame.Packet.Registry.Outcomes.{IsRegistered, marshal_outcome, on_unmarshal-known}
use xgame.Packet.Codec.{u16_bytes, read_bodies, read_message, frame, pack_message}
use xgame.Packet.Codec.Framing.{reader, read_limit-append, read_message-header}

module _ {T M : Type 0} ⦃e : Eq T⦄ (p : Proto T M) where
  -- What protobuf documents: unmarshalling undoes marshalling.
  pub record IsLossless : Type 0 where
    pub message :
        (m : M) (body : List ℕ) → p.marshal m ≡ ok body → p.unmarshal (p.type_of m) body ≡ ok m
    pub common :
        (c : MsgCommon) (body : List ℕ)
        → p.marshal_common c ≡ ok body
        → p.unmarshal_common body ≡ ok c

  -- Both parts of a frame have lengths that two bytes can hold.
  pub record Fits (c : MsgCommon) (m : M) : Type 0 where
    pub common : (body : List ℕ) → p.marshal_common c ≡ ok body → length body < 2 ^ 16
    pub message : (body : List ℕ) → p.marshal m ≡ ok body → length body < 2 ^ 16

  -- What PackMessage has returned: both parts marshalled, behind their lengths, with the route of the
  -- message's type, which is registered.
  pub record Packed (c c' : MsgCommon) (m : M) (bytes : List ℕ) (r' : Registry T) : Type 0 where
    pub raw_common : List ℕ
    pub raw_msg : List ℕ
    pub common_marshalled : p.marshal_common c' ≡ ok raw_common
    pub message_marshalled : p.marshal m ≡ ok raw_msg
    pub framed : bytes ≡ frame p raw_common raw_msg
    pub routed : c' ≡ record c { route = type_hash p (p.type_of m) }
    pub registered : IsRegistered p (p.type_of m) r'

  pack_common_inv :
      (c c' : MsgCommon) (raw_msg bytes : List ℕ) (x : Result (List ℕ)) (s : Registry T)
      → let out =
          continue {B = MsgCommon × List ℕ} x
            (λ raw_common. pure (c, frame p raw_common raw_msg))
            s in
        out.0 ≡ ok (c', bytes)
        → (raw_common : List ℕ) × (x ≡ ok raw_common)
          × (c' ≡ c)
          × (bytes ≡ frame p raw_common raw_msg)
          × (out.1 ≡ s)
  pack_common_inv c c' raw_msg bytes (ok raw_common) s h =
      (raw_common, refl, ground arith, ground arith, refl)
  pack_common_inv c c' raw_msg bytes (err x) s h = cc
  pack_common_inv c c' raw_msg bytes (panic x) s h = cc

  assemble :
      {c c' : MsgCommon} {m : M} {bytes : List ℕ} {id : ℕ} {raw_common raw_msg : List ℕ}
      {s s' : Registry T}
      → p.marshal_common (record c { route = id }) ≡ ok raw_common
      → c' ≡ record c { route = id }
      → bytes ≡ frame p raw_common raw_msg
      → s' ≡ s
      → id ≡ type_hash p (p.type_of m)
      → p.marshal m ≡ ok raw_msg
      → IsRegistered p (p.type_of m) s
      → Packed c c' m bytes s'
  assemble {c} {m} {raw_common} {raw_msg} hx hc hb hs hid hm reg = record {
    raw_common = raw_common;
    raw_msg = raw_msg;
    common_marshalled = ap p.marshal_common hc ∙ hx;
    message_marshalled = hm;
    framed = hb;
    routed = hc ∙ ap (λ (i : ℕ). record c { route = i }) hid;
    registered = subst (IsRegistered p (p.type_of m)) (sym hs) reg;
  }

  pack_inv :
      (c c' : MsgCommon) (m : M) (bytes : List ℕ) (r : Registry T) (y : Result (ℕ × List ℕ))
      (s : Registry T)
      → on_marshal p m r ≡ (y, s)
      → IsConsistent p r
      → (pack_message p c m r).0 ≡ ok (c', bytes)
      → Packed c c' m bytes (pack_message p c m r).1
  unfolding pack_message
  pack_inv c c' m bytes r (ok (id, raw_msg)) s q k h =
      let routed = record c { route = id } in
      let (raw_common, hx, hc, hb, hs) =
        pack_common_inv routed c' raw_msg bytes (p.marshal_common routed) s (rw q at h) in
      let (hid, hm, reg) = marshal_outcome p m r id raw_msg k (ap (λ x. x.0) q) in
      rw q (assemble hx hc hb hs hid hm (rw q at reg))
  pack_inv c c' m bytes r (err x) s q k h = cc (rw q at h)
  pack_inv c c' m bytes r (panic x) s q k h = cc (rw q at h)

  pub pack_message_inv :
      (c c' : MsgCommon) (m : M) (bytes : List ℕ) (r : Registry T)
      → IsConsistent p r
      → (pack_message p c m r).0 ≡ ok (c', bytes)
      → Packed c c' m bytes (pack_message p c m r).1
  pack_message_inv c c' m bytes r k h =
      let (y, s) = on_marshal p m r in pack_inv c c' m bytes r y s refl k h

  read_bodies-append :
      (lossless : IsLossless) (reg : Registry T) (c : MsgCommon) (m : M)
      (raw_common raw_msg rest : List ℕ) (f : Option Error)
      → p.marshal_common c ≡ ok raw_common
      → p.marshal m ≡ ok raw_msg
      → message_type reg c.route ≡ some (p.type_of m)
      → read_bodies p reg
          (length raw_common, length raw_msg)
          (reader (raw_common ++ (raw_msg ++ rest)) f)
        ≡ (ok (c, m), reader rest f)
  unfolding read_bodies
  read_bodies-append lossless reg c m raw_common raw_msg rest f hc hm known = rw (
    read_limit-append,
    lossless.common c raw_common hc,
    read_limit-append,
    on_unmarshal-known p reg (p.type_of m) c.route raw_msg known,
    lossless.message m raw_msg hm,
  )

  pub frame-append :
      (raw_common raw_msg rest : List ℕ)
      → frame p raw_common raw_msg ++ rest
        ≡ (u16_bytes (length raw_common) ++ u16_bytes (length raw_msg))
          ++ (raw_common ++ (raw_msg ++ rest))
  frame-append raw_common raw_msg rest = simp append_assoc

  -- With a protobuf that undoes its marshalling, what PackMessage returns on a consistent registry
  -- is read back by ReadMessage as the same MsgCommon and message, and what follows is left unread,
  -- when both parts fit two bytes of length and the reading side has the message's type registered
  -- under the route.
  pub read-pack :
      (lossless : IsLossless) (r reg : Registry T) (c c' : MsgCommon) (m : M) (bytes rest : List ℕ)
      (f : Option Error)
      → IsConsistent p r
      → (pack_message p c m r).0 ≡ ok (c', bytes)
      → Fits c' m
      → message_type reg c'.route ≡ some (p.type_of m)
      → read_message p reg (reader (bytes ++ rest) f) ≡ (ok (c', m), reader rest f)
  read-pack lossless r reg c c' m bytes rest f k h fits known =
      let v = pack_message_inv c c' m bytes r k h in
      let small = fits.common v.raw_common v.common_marshalled in
      let small' = fits.message v.raw_msg v.message_marshalled in
      ap (λ xs. read_message p reg (reader xs f))
        (ap (λ xs. xs ++ rest) v.framed ∙ frame-append v.raw_common v.raw_msg rest)
      ∙ read_message-header p reg (length v.raw_common) (length v.raw_msg) _ f
      ∙ rw (mod-eq_of_lt small, mod-eq_of_lt small')
          (read_bodies-append lossless reg c' m v.raw_common v.raw_msg rest f v.common_marshalled
            v.message_marshalled known)
