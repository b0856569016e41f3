-- ===== src/Tests/StreamTests.antt =====
-- Runs of ReadMessage and its loop on streams, cut-off frames and frames that are too long.
use mathlib.Core.List.{Memᴰ}
use xgame.Common.{
  ℕ, zero, suc, ◌≡◌, ◌≢◌, refl, ◌++◌, none, some, List, [], ◌∷◌, ◌<◌, ◌≤◌, ◌^◌, ◌%◌, length, drop,
  arith,
}
use xgame.Common.Map.{get, put, empty}
use xgame.Go.{ok}
use xgame.Go.Errors.{packet_connect_closed}
use xgame.Go.Crc32.{checksum_ieee, bytes_of}
use xgame.Pb.{MsgCommon}
use xgame.Packet.Registry.{hash, register_message, on_marshal, message_type}
use xgame.Packet.Codec.{read_message, pack_message, u16_bytes, frame}
use xgame.Packet.Codec.Framing.{reader}
use xgame.Packet.Codec.RoundTrip.{Fits}
use xgame.Packet.Codec.Loop.{read_loop, read_loop_total, stopped}
use xgame.Packet.Codec.Stream.{pack_all, read_loop-pack_all}
use xgame.Packet.Codec.Oversize.{pack_oversize}
use xgame.Tests.Samples.{
  kind_eq, login_request, login_response, Msg, proto, proto-IsLossless, login, response, common,
}
use xgame.Tests.PacketTests.{
  two_types, two_types-IsConsistent, request_id, response_id, routed, request_known,
}

abbrev pub answered : MsgCommon
answered = record common { route = response_id }

pub response_known : message_type two_types response_id ≡ some login_response
unfolding register_message hash checksum_ieee bytes_of get put empty
response_known = refl

abbrev pub stream : List ℕ
stream =
    6 ∷ 0 ∷ 2 ∷ 0 ∷ 0 ∷ 0 ∷ 0 ∷ 5 ∷ 0 ∷ request_id ∷ 7 ∷ 8 ∷ 6 ∷ 0 ∷ 1 ∷ 0 ∷ 0 ∷ 0 ∷ 0 ∷ 5 ∷ 0
    ∷ response_id ∷ 9 ∷ []

pub stream_packed :
    (pack_all proto ((common, login) ∷ (common, response) ∷ []) two_types).0
    ≡ ok ((routed, login) ∷ (answered, response) ∷ [], stream)
unfolding pack_all pack_message on_marshal register_message hash checksum_ieee bytes_of get put
    empty u16_bytes
stream_packed = refl

pub request-Fits : Fits proto routed login
request-Fits = record { common = λ body h. ground arith; message = λ body h. ground arith }

pub response-Fits : Fits proto answered response
response-Fits = record { common = λ body h. ground arith; message = λ body h. ground arith }

read_loop-pack_all_example :
    read_loop proto 3 two_types (reader stream none)
    ≡ some ((routed, login) ∷ (answered, response) ∷ [], stopped packet_connect_closed)
read_loop-pack_all_example =
    read_loop-pack_all proto proto-IsLossless two_types ((common, login) ∷ (common, response) ∷ [])
      ((routed, login) ∷ (answered, response) ∷ []) two_types stream two_types-IsConsistent
      stream_packed ((request-Fits, request_known), ((response-Fits, response_known), tt))

read_loop_total_example : read_loop proto 30 two_types (reader stream none) ≢ none
read_loop_total_example = read_loop_total proto 30 two_types (reader stream none) (omega arith)

header_bytes : (b : ℕ) → Memᴰ b (1 ∷ 1 ∷ 2 ∷ 0 ∷ []) → b < 256
header_bytes b (Memᴰ.head q) = omega arith
header_bytes b (Memᴰ.tail (Memᴰ.head q)) = omega arith
header_bytes b (Memᴰ.tail (Memᴰ.tail (Memᴰ.head q))) = omega arith
header_bytes b (Memᴰ.tail (Memᴰ.tail (Memᴰ.tail (Memᴰ.head q)))) = omega arith
header_bytes b (Memᴰ.tail (Memᴰ.tail (Memᴰ.tail (Memᴰ.tail h)))) = elim h [ ]

-- A body of 2^16 bytes.
unfoldable zeros : ℕ → List ℕ
zeros zero = []
zeros (suc n) = 0 ∷ zeros n

length-zeros : (n : ℕ) → length (zeros n) ≡ n
unfolding zeros
length-zeros zero = refl
length-zeros (suc n) = omega (arith, length-zeros n)

abbrev long : Msg
long = record { kind = login_request; body = zeros (2 ^ 16) }

long_packed :
    (pack_message proto common long two_types).0
    ≡ ok (routed, frame proto (0 ∷ 0 ∷ 0 ∷ 5 ∷ 0 ∷ request_id ∷ []) (zeros (2 ^ 16)))
unfolding pack_message on_marshal register_message hash checksum_ieee bytes_of get put empty
long_packed = refl

pack_oversize_example :
    let cut = length (zeros (2 ^ 16)) % 2 ^ 16 in
    let bytes = frame proto (0 ∷ 0 ∷ 0 ∷ 5 ∷ 0 ∷ request_id ∷ []) (zeros (2 ^ 16)) in
    ((read_message proto two_types (reader (bytes ++ []) none)).1
      ≡ reader (drop cut (zeros (2 ^ 16)) ++ []) none)
    × (2 ^ 16 ≤ length (drop cut (zeros (2 ^ 16))))
pack_oversize_example =
    pack_oversize proto proto-IsLossless two_types two_types common routed long
      (frame proto (0 ∷ 0 ∷ 0 ∷ 5 ∷ 0 ∷ request_id ∷ []) (zeros (2 ^ 16))) [] (zeros (2 ^ 16)) none
      two_types-IsConsistent long_packed (λ raw h. ground arith) refl
      (omega (arith, length-zeros (2 ^ 16)))
