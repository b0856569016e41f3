-- ===== src/Packet/Codec/Oversize.antt =====
-- PackMessage on a message that is too long for the two bytes of its length.
use mathlib.Core.List.{append_assoc}
use native.Mathlib.Nat.{mod-eq_of_lt}
use xgame.Common.{
  ℕ, ◌%◌, ◌^◌, ◌≤◌, ◌<◌, ◌≡◌, refl, sym, ◌∙◌, ap, Option, List, ◌++◌, length, take, drop,
  length-take, length-take-drop, take-append-drop, arith, Eq,
}
use xgame.Go.{Result, ok, err, panic, continue, pure}
use xgame.Go.Errors.{Error}
use xgame.Pb.{MsgCommon, Proto}
use xgame.Packet.Registry.{Registry, on_unmarshal}
use xgame.Packet.Registry.Consistency.{IsConsistent}
use xgame.Packet.Codec.{Reader, read_bodies, read_message, pack_message}
use xgame.Packet.Codec.Framing.{reader, read_limit-append, read_message-header}
use xgame.Packet.Codec.RoundTrip.{IsLossless, pack_message_inv, frame-append}

length-cut : (n : ℕ) (xs : List ℕ) → n ≤ length xs → length (take n xs) ≡ n
length-cut n xs h = omega (arith, length-take n xs)

module _ {T M : Type 0} ⦃e : Eq T⦄ (p : Proto T M) where
  state_kept :
      (c : MsgCommon) (x : Result M) (s : Reader)
      → (continue x (λ m. pure {A = MsgCommon × M} (c, m)) s).1 ≡ s
  state_kept c (ok m) s = refl
  state_kept c (err x) s = refl
  state_kept c (panic x) s = refl

  read_bodies-cut :
      (reg : Registry T) (c : MsgCommon) (raw_common got left : List ℕ) (f : Option Error)
      → p.unmarshal_common raw_common ≡ ok c
      → (read_bodies p reg
          (length raw_common, length got)
          (reader (raw_common ++ (got ++ left)) f)).1
        ≡ reader left f
  unfolding read_bodies
  read_bodies-cut reg c raw_common got left f hc =
      rw (read_limit-append, hc, read_limit-append)
        (state_kept c (on_unmarshal p reg c.route got) (reader left f))

  read_cut :
      (reg : Registry T) (c : MsgCommon) (raw_common body rest : List ℕ) (cut : ℕ)
      (f : Option Error)
      → p.unmarshal_common raw_common ≡ ok c
      → cut ≤ length body
      → (read_bodies p reg (length raw_common, cut) (reader (raw_common ++ (body ++ rest)) f)).1
        ≡ reader (drop cut body ++ rest) f
  read_cut reg c raw_common body rest cut f hc fits =
      ap (λ xs. (read_bodies p reg (length raw_common, cut) (reader (raw_common ++ xs) f)).1)
        (ap (λ xs. xs ++ rest) (sym (take-append-drop cut body))
          ∙ append_assoc (take cut body) (drop cut body) rest)
      ∙ ap
          (λ k.
            (read_bodies p reg (length raw_common, k)
              (reader (raw_common ++ (take cut body ++ (drop cut body ++ rest))) f)).1)
          (sym (length-cut cut body fits))
      ∙ read_bodies-cut reg c raw_common (take cut body) (drop cut body ++ rest) f hc

  -- On a consistent registry, with a protobuf that undoes its marshalling and a common part that
  -- fits, PackMessage of a message of 2^16 bytes or more returns a frame with the length modulo
  -- 2^16. ReadMessage takes only so many bytes of the message, and the others, 2^16 at least, stay
  -- in front of what follows.
  pub pack_oversize :
      (lossless : IsLossless p) (r reg : Registry T) (c c' : MsgCommon) (m : M)
      (bytes rest body : List ℕ) (f : Option Error)
      → IsConsistent p r
      → (pack_message p c m r).0 ≡ ok (c', bytes)
      → ((raw : List ℕ) → p.marshal_common c' ≡ ok raw → length raw < 2 ^ 16)
      → p.marshal m ≡ ok body
      → 2 ^ 16 ≤ length body
      → let cut = length body % 2 ^ 16 in
        ((read_message p reg (reader (bytes ++ rest) f)).1 ≡ reader (drop cut body ++ rest) f)
        × (2 ^ 16 ≤ length (drop cut body))
  pack_oversize lossless r reg c c' m bytes rest body f k h small hm big =
      let v = pack_message_inv p c c' m bytes r k h in
      let rc = v.raw_common in
      let same : v.raw_msg ≡ body = cc (v.message_marshalled, hm) in
      let cut = length body % 2 ^ 16 in
      (
        ap (λ xs. (read_message p reg (reader xs f)).1)
              (ap (λ xs. xs ++ rest) v.framed ∙ frame-append p rc v.raw_msg rest)
            ∙ ap (λ x. x.1)
                (read_message-header p reg (length rc) (length v.raw_msg)
                  (rc ++ (v.raw_msg ++ rest)) f)
            ∙ rw (mod-eq_of_lt (small rc v.common_marshalled), same)
                (read_cut reg c' rc body rest cut f (lossless.common c' rc v.common_marshalled)
                  (omega arith)),
        omega (arith, length-take-drop cut body, length-cut cut body (omega arith)),
      )
