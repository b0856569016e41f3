-- ===== src/Packet/Codec/Malformed.antt =====
-- ReadMessage on input that is no whole frame, and the header's length checks.
use mathlib.Core.List.{Memᴰ}
use xgame.Common.{
  nat_eq, false, ℕ, ◌+◌, ◌*◌, ◌^◌, ◌≤◌, ◌<◌, ◌≡◌, refl, ◌∙◌, Option, none, some, List, [], ◌∷◌,
  ◌++◌, length, arith, Eq, take_all, drop_all,
}
use native.Mathlib.Nat.{mod-eq_of_lt}
use xgame.Go.{Result, ok, err, panic, continue, pure}
use xgame.Go.Errors.{Error, packet_connect_closed, packet_invalid_header}
use xgame.Pb.{MsgCommon, Proto}
use xgame.Packet.Registry.{Registry, on_unmarshal}
use xgame.Packet.Codec.{
  Reader, read_limit, parse_head, u16_bytes, read_bodies, read_message, head_length,
}
use xgame.Packet.Codec.Framing.{reader, read_limit-append, read_message-header}

-- The two lengths of a header, little endian, without any check of their size.
abbrev pub header_lengths : List ℕ → Result (ℕ × ℕ)
header_lengths (a ∷ b ∷ c ∷ d ∷ []) = ok (a + 256 * b, c + 256 * d)
header_lengths _ = err packet_invalid_header

length-ge :
    (a b c d e : ℕ) (xs : List ℕ) → nat_eq (length (a ∷ b ∷ c ∷ d ∷ e ∷ xs)) head_length ≡ false
length-ge a b c d e xs = ground arith

-- For a header whose elements are bytes, parseHead returns the two little-endian lengths when there
-- are exactly four of them, and an invalid header otherwise: its two size checks never fail.
pub parse_head_total :
    (header : List ℕ)
    → ((b : ℕ) → Memᴰ b header → b < 256)
    → parse_head header ≡ header_lengths header
unfolding parse_head
parse_head_total [] h = refl
parse_head_total (a ∷ []) h = refl
parse_head_total (a ∷ b ∷ []) h = refl
parse_head_total (a ∷ b ∷ c ∷ []) h = refl
parse_head_total (a ∷ b ∷ c ∷ d ∷ []) h = ground (
  arith,
  h a (Memᴰ.head refl),
  h b (Memᴰ.tail (Memᴰ.head refl)),
  h c (Memᴰ.tail (Memᴰ.tail (Memᴰ.head refl))),
  h d (Memᴰ.tail (Memᴰ.tail (Memᴰ.tail (Memᴰ.head refl)))),
)
parse_head_total (a ∷ b ∷ c ∷ d ∷ e ∷ xs) h = rw (length-ge a b c d e xs) refl

-- The error for input that ends before four bytes.
abbrev pub short_error : List ℕ → Option Error → Error
short_error xs (some e) = e
short_error [] none = packet_connect_closed
short_error (x ∷ xs) none = packet_invalid_header

read_limit-short :
    (n : ℕ) (xs : List ℕ) → length xs ≤ n → read_limit n (reader xs none) ≡ (ok xs, reader [] none)
unfolding read_limit
read_limit-short n xs h = ground (arith, take_all n xs h, drop_all n xs h)

module _ {T M : Type 0} ⦃e : Eq T⦄ (p : Proto T M) (reg : Registry T) where
  -- On fewer than four bytes ReadMessage fails: with the reader's own error if it has one, else
  -- with a closed connection when nothing came, and with an invalid header when something did.
  pub read_message-short :
      (xs : List ℕ) (f : Option Error)
      → length xs < head_length
      → (read_message p reg (reader xs f)).0 ≡ err (short_error xs f)
  unfolding read_message read_limit parse_head
  read_message-short [] none h = refl
  read_message-short [] (some x) h = refl
  read_message-short (a ∷ []) none h = refl
  read_message-short (a ∷ []) (some x) h = refl
  read_message-short (a ∷ b ∷ []) none h = refl
  read_message-short (a ∷ b ∷ []) (some x) h = refl
  read_message-short (a ∷ b ∷ c ∷ []) none h = refl
  read_message-short (a ∷ b ∷ c ∷ []) (some x) h = refl
  read_message-short (a ∷ b ∷ c ∷ d ∷ xs) f h = absurd (omega arith)

  -- What ReadMessage does with the message part.
  abbrev pub decoded : MsgCommon → Result M → Result (MsgCommon × M)
  decoded c (ok m) = ok (c, m)
  decoded c (err x) = err x
  decoded c (panic x) = panic x

  decoded_lem :
      (c : MsgCommon) (x : Result M) (s : Reader)
      → continue x (λ m. pure {A = MsgCommon × M} (c, m)) s ≡ (decoded c x, s)
  decoded_lem c (ok m) s = refl
  decoded_lem c (err x) s = refl
  decoded_lem c (panic x) s = refl

  -- When the input ends inside the message of a frame whose common part decodes, ReadMessage does
  -- not notice: it decodes the bytes that came as if they were the whole message.
  pub read_message-truncated :
      (raw_common got : List ℕ) (n : ℕ) (c : MsgCommon)
      → length raw_common < 2 ^ 16
      → n < 2 ^ 16
      → length got ≤ n
      → p.unmarshal_common raw_common ≡ ok c
      → read_message p reg
          (reader ((u16_bytes (length raw_common) ++ u16_bytes n) ++ (raw_common ++ got)) none)
        ≡ (decoded c (on_unmarshal p reg c.route got), reader [] none)
  unfolding read_bodies
  read_message-truncated raw_common got n c hc hn short decodes =
      read_message-header p reg (length raw_common) n _ none
      ∙ rw
          (
            mod-eq_of_lt hc,
            mod-eq_of_lt hn,
            read_limit-append,
            decodes,
            read_limit-short n got short,
          )
          (decoded_lem c (on_unmarshal p reg c.route got) (reader [] none))
