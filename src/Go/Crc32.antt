-- ===== src/Go/Crc32.antt =====
-- `hash/crc32.ChecksumIEEE` over the UTF-8 bytes of a text, as the repository uses it for routes and ids.
use Prim.Native.Char.{code}
use Prim.Native.Nat.{bit_xor}
use xgame.Common.{
  ℕ, zero, suc, ◌+◌, ◌/◌, ◌%◌, ◌^◌, ◌<◌, String, ◌≡◌, refl, List, [], ◌∷◌, ◌++◌, ltb, nat_eq,
  if◌then◌else◌, arith,
}

-- The UTF-8 bytes of one code point.
encode_rune : ℕ → List ℕ
encode_rune n =
    if ltb n 0x80
    then n ∷ []
    else if ltb n 0x800
    then (0xC0 + n / 64) ∷ (0x80 + n % 64) ∷ []
    else if ltb n 0x10000
    then (0xE0 + n / 4096) ∷ (0x80 + n / 64 % 64) ∷ (0x80 + n % 64) ∷ []
    else (0xF0 + n / 262144) ∷ (0x80 + n / 4096 % 64) ∷ (0x80 + n / 64 % 64) ∷ (0x80 + n % 64) ∷ []

-- []byte(s)
unfoldable pub bytes_of : String → List ℕ
unfolding encode_rune
bytes_of String.[] = []
bytes_of (String.◌∷◌ c s) = encode_rune (code c) ++ bytes_of s

-- One of the eight shifts of a byte, with the reversed polynomial.
shift : ℕ → ℕ
shift c = if nat_eq (c % 2) 1 then bit_xor (c / 2) 0xEDB88320 else c / 2

shifts : ℕ → ℕ → ℕ
unfolding shift
shifts zero c = c
shifts (suc n) c = shifts n (shift c)

update : ℕ → List ℕ → ℕ
unfolding shifts
update c [] = c
update c (b ∷ bs) = update (shifts 8 (bit_xor c b)) bs

unfoldable pub checksum_ieee : List ℕ → ℕ
unfolding update
checksum_ieee bs = bit_xor (update 0xFFFFFFFF bs) 0xFFFFFFFF % 2 ^ 32

pub checksum_ieee-lt : (bs : List ℕ) → checksum_ieee bs < 2 ^ 32
unfolding checksum_ieee
checksum_ieee-lt bs = omega arith

-- The check value of the CRC catalogue.
checksum_ieee_check : checksum_ieee (bytes_of "123456789") ≡ 0xCBF43926
unfolding checksum_ieee bytes_of
checksum_ieee_check = refl
