-- ===== src/Packet/Codec.antt =====
-- framework/pkg/packet/packet.go: a frame is two lengths of two bytes, the common part and the message.
pub mod Framing
pub mod RoundTrip
pub mod Loop
pub mod Stream
pub mod Oversize
pub mod Malformed
pub mod Typed
pub mod Unknown
use xgame.Common.{
  ℕ, ◌+◌, ◌-◌, ◌*◌, ◌/◌, ◌%◌, ◌^◌, Option, none, some, List, [], ◌∷◌, ◌++◌, length, take, drop, ltb,
  leb, nat_eq, not, Eq, if◌then◌else◌,
}
use xgame.Go.{Result, ok, err, Exec, ◌>>=◌, ◌>>◌, pure, lift, guard}
use xgame.Go.Errors.{Error, new, packet_connect_closed, packet_invalid_header, packet_size_exceed}
use xgame.Pb.{MsgCommon, Proto}
use xgame.Packet.Registry.{Registry, on_marshal, on_unmarshal}

abbrev pub head1_len : ℕ
head1_len = 2

abbrev pub head2_len : ℕ
head2_len = 2

abbrev pub head_length : ℕ
head_length = head1_len + head2_len

abbrev pub max_body1_len : ℕ
max_body1_len = 2 ^ (head1_len * 8) - 1

abbrev pub max_body2_len : ℕ
max_body2_len = 2 ^ (head2_len * 8) - 1

-- An io.Reader: the bytes that it will still give, and the error that follows them (`none` is io.EOF).
pub record Reader : Type 0 where
  pub bytes : List ℕ
  pub failure : Option Error

-- io.ReadAll of a LimitReader that has `n` bytes left to give: it stops without a read of the reader
-- below once they are used up, and the end of input is no error.
read_short : ℕ → Option Error → Exec Reader (List ℕ)
read_short n none r = (ok r.bytes, record r { bytes = [] })
read_short n (some e) r = (err e, record r { bytes = [] })

unfoldable pub read_limit : ℕ → Exec Reader (List ℕ)
unfolding read_short
read_limit n r =
    if leb n (length r.bytes)
    then (ok (take n r.bytes), record r { bytes = drop n r.bytes })
    else read_short n r.failure r

-- binary.Read of a uint16, little endian; a bytes.Reader that has run out gives an EOF error.
unfoldable pub read_u16 : Exec (List ℕ) ℕ
read_u16 (b ∷ c ∷ rest) = (ok (b + 256 * c), rest)
read_u16 (b ∷ []) = (err (new "unexpected EOF"), [])
read_u16 [] = (err (new "EOF"), [])

parse_lengths : Exec (List ℕ) (ℕ × ℕ)
unfolding read_u16
parse_lengths = do
  common_len ← read_u16
  guard (not (ltb max_body1_len common_len)) packet_size_exceed
  msg_len ← read_u16
  guard (not (ltb max_body2_len msg_len)) packet_size_exceed
  pure (common_len, msg_len)

unfoldable pub parse_head : List ℕ → Result (ℕ × ℕ)
unfolding parse_lengths
parse_head header =
    if nat_eq (length header) head_length
    then (parse_lengths header).0
    else err packet_invalid_header

-- binary.Write of uint16(n), little endian.
unfoldable pub u16_bytes : ℕ → List ℕ
u16_bytes n = let w = n % 2 ^ 16 in (w % 256) ∷ (w / 256) ∷ []

module _ {T M : Type 0} ⦃e : Eq T⦄ (p : Proto T M) where
  -- The two bodies, after the lengths.
  unfoldable pub read_bodies : Registry T → ℕ × ℕ → Exec Reader (MsgCommon × M)
  read_bodies reg (common_len, msg_len) = do
    raw_common ← read_limit common_len
    common ← lift (p.unmarshal_common raw_common)
    raw_msg ← read_limit msg_len
    msg ← lift (on_unmarshal p reg common.route raw_msg)
    pure (common, msg)

  -- ReadMessage
  unfoldable pub read_message : Registry T → Exec Reader (MsgCommon × M)
  read_message reg = do
    header ← read_limit head_length
    guard (not (nat_eq (length header) 0)) packet_connect_closed
    lengths ← lift (parse_head header)
    read_bodies reg lengths

  -- The bytes of a frame.
  abbrev pub frame : List ℕ → List ℕ → List ℕ
  frame raw_common raw_msg =
      u16_bytes (length raw_common) ++ (u16_bytes (length raw_msg) ++ (raw_common ++ raw_msg))

  -- PackMessage: the MsgCommon that it has written the route into, and the bytes.
  unfoldable pub pack_message : MsgCommon → M → Exec (Registry T) (MsgCommon × List ℕ)
  pack_message common msg = do
    routed ← on_marshal p msg
    let common' = record common { route = routed.0 }
    raw_common ← lift (p.marshal_common common')
    pure (common', frame raw_common routed.1)
