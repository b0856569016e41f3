-- ===== src/Tests/PacketTests.antt =====
-- Runs of framework/pkg/packet on the sample messages.
use xgame.Common.{ℕ, ◌≡◌, ◌≢◌, refl, ◌++◌, none, some, List, [], ◌∷◌, ◌⊎◌, arith}
use xgame.Common.Map.{get, put, empty}
use xgame.Go.{ok, panic}
use xgame.Go.Fmt.{text, sprintf}
use xgame.Go.Crc32.{checksum_ieee, bytes_of}
use xgame.Pb.{MsgCommon}
use xgame.Packet.Registry.{
  Registry, empty_registry, hash, type_hash, register_message, on_marshal, message_type,
}
use xgame.Packet.Registry.Consistency.{IsConsistent, empty-IsConsistent, register-IsConsistent}
use xgame.Packet.Registry.Outcomes.{IsRegistered, register_outcome}
use xgame.Packet.Codec.{read_message, pack_message, u16_bytes}
use xgame.Packet.Codec.Framing.{reader}
use xgame.Packet.Codec.RoundTrip.{Fits, read-pack}
use xgame.Tests.Samples.{
  name_of, Kind, kind_eq, login_request, login_response, proto, proto-IsLossless, login, response,
  common,
}

-- The ids of the sample types.
abbrev pub request_id : ℕ
request_id = 2936394468

abbrev pub response_id : ℕ
response_id = 440603008

pub request-hash : type_hash proto login_request ≡ request_id
unfolding hash checksum_ieee bytes_of
request-hash = refl

-- Both types registered, one after the other.
abbrev pub one_type : Registry Kind
one_type = (register_message proto (some login) empty_registry).1

abbrev pub two_types : Registry Kind
two_types = (register_message proto (some response) one_type).1

pub one_type-IsConsistent : IsConsistent proto one_type
one_type-IsConsistent =
    register-IsConsistent proto (some login) empty_registry (empty-IsConsistent proto)

pub request_known : message_type two_types request_id ≡ some login_request
unfolding register_message hash checksum_ieee bytes_of get put empty
request_known = refl

abbrev pub routed : MsgCommon
routed = record common { route = request_id }

abbrev pub frame : List ℕ
frame = 6 ∷ 0 ∷ 2 ∷ 0 ∷ 0 ∷ 0 ∷ 0 ∷ 5 ∷ 0 ∷ request_id ∷ 7 ∷ 8 ∷ []

pub request_packed : (pack_message proto common login two_types).0 ≡ ok (routed, frame)
unfolding pack_message on_marshal register_message hash checksum_ieee bytes_of get put empty
    u16_bytes
request_packed = refl

pub two_types-IsConsistent : IsConsistent proto two_types
two_types-IsConsistent = register-IsConsistent proto (some response) one_type one_type-IsConsistent

pub routed-Fits : Fits proto routed login
routed-Fits = record { common = λ body h. ground arith; message = λ body h. ground arith }

read-pack_example :
    read_message proto two_types (reader (frame ++ 1 ∷ []) none)
    ≡ (ok (routed, login), reader (1 ∷ []) none)
read-pack_example =
    read-pack proto proto-IsLossless two_types two_types common routed login frame (1 ∷ []) none
      two_types-IsConsistent request_packed routed-Fits request_known

register_outcome_example :
    (((u : Kind)
        → message_type one_type (type_hash proto login_response) ≡ some u
        → u ≡ login_response)
      × ((register_message proto (some response) one_type).0 ≡ ok (type_hash proto login_response))
      × IsRegistered proto login_response (register_message proto (some response) one_type).1)
    ⊎ ((u : Kind) × (message_type one_type (type_hash proto login_response) ≡ some u)
        × (u ≢ login_response)
        × (register_message proto (some response) one_type ≡ (
          panic (sprintf "哈希冲突 %s %s" (text (name_of u) ∷ text (name_of login_response) ∷ [])),
          one_type,
        )))
register_outcome_example = register_outcome proto response one_type one_type-IsConsistent

request_known_first : message_type one_type request_id ≡ some login_request
unfolding register_message hash checksum_ieee bytes_of get put empty
request_known_first = refl

request_marshalled : (on_marshal proto login one_type).0 ≡ ok (request_id, 7 ∷ 8 ∷ [])
unfolding on_marshal register_message hash checksum_ieee bytes_of get put empty
request_marshalled = refl
