-- ===== src/Packet/Codec/Framing.antt =====
-- Reading a frame back, up to the decoding of its two bodies; and input that is no whole frame.
use xgame.Common.{
  ℕ, ◌%◌, ◌^◌, ◌≡◌, refl, true, Option, List, ◌++◌, length, leb, length-append, take-append_length,
  drop-append_length, arith, Eq,
}
use xgame.Go.{ok}
use xgame.Go.Errors.{Error}
use xgame.Pb.{Proto}
use xgame.Packet.Registry.{Registry}
use xgame.Packet.Codec.{
  Reader, head_length, read_limit, parse_head, u16_bytes, read_bodies, read_message,
}

abbrev pub reader : List ℕ → Option Error → Reader
reader bytes failure = record { bytes = bytes; failure = failure }

leb-append : (xs ys : List ℕ) → leb (length xs) (length (xs ++ ys)) ≡ true
leb-append xs ys = ground (arith, length-append xs ys)

-- A read of exactly the bytes in front leaves the others.
pub read_limit-append :
    (xs ys : List ℕ) (f : Option Error)
    → read_limit (length xs) (reader (xs ++ ys) f) ≡ (ok xs, reader ys f)
unfolding read_limit
read_limit-append xs ys f =
    rw (leb-append xs ys, take-append_length xs ys, drop-append_length xs ys)

-- The header gives the two lengths modulo 2^16, for every two lengths.
pub parse_head-u16_bytes :
    (a b : ℕ) → parse_head (u16_bytes a ++ u16_bytes b) ≡ ok (a % 2 ^ 16, b % 2 ^ 16)
unfolding parse_head u16_bytes
parse_head-u16_bytes a b = ground arith

length-header : (a b : ℕ) → length (u16_bytes a ++ u16_bytes b) ≡ 4
unfolding u16_bytes
length-header a b = refl

read_limit-header :
    (a b : ℕ) (rest : List ℕ) (f : Option Error)
    → read_limit head_length (reader ((u16_bytes a ++ u16_bytes b) ++ rest) f)
      ≡ (ok (u16_bytes a ++ u16_bytes b), reader rest f)
unfolding u16_bytes
read_limit-header a b rest f = read_limit-append (u16_bytes a ++ u16_bytes b) rest f

module _ {T M : Type 0} ⦃e : Eq T⦄ (p : Proto T M) (reg : Registry T) where
  -- ReadMessage decodes the bodies that follow, with the lengths of the header.
  pub read_message-header :
      (a b : ℕ) (rest : List ℕ) (f : Option Error)
      → read_message p reg (reader ((u16_bytes a ++ u16_bytes b) ++ rest) f)
        ≡ read_bodies p reg (a % 2 ^ 16, b % 2 ^ 16) (reader rest f)
  unfolding read_message
  read_message-header a b rest f = rw (read_limit-header, length-header, parse_head-u16_bytes)
