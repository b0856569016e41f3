-- ===== src/Tests/Samples.antt =====
-- Two message types with a wire format of their own, for the tests: a login request and its response.
use xgame.Common.{
  nat_eq, Option, none, some, string_eq, ◌==◌, if◌then◌else◌, arith, eq_iff, ℕ, ◌≡◌, ◌↔◌, refl,
  Bool, true, false, String, List, [], ◌∷◌, Eq, string_eq, ap, ◌∙◌, arith,
}
use xgame.Go.{Result, ok, err}
use xgame.Go.Errors.{new}
use xgame.Pb.{MsgCommon, Proto, no_common}
use xgame.Packet.Codec.RoundTrip.{IsLossless}

pub data Kind : Type 0 where
  login_request login_response : Kind

abbrev pub kind_beq : Kind → Kind → Bool
kind_beq login_request login_request = true
kind_beq login_response login_response = true
kind_beq _ _ = false

pub kind_beq_iff : (a b : Kind) → (kind_beq a b ≡ true) ↔ (a ≡ b)
kind_beq_iff login_request login_request = (λ _. refl, λ _. refl)
kind_beq_iff login_request login_response = (λ h. cc, λ h. cc)
kind_beq_iff login_response login_request = (λ h. cc, λ h. cc)
kind_beq_iff login_response login_response = (λ _. refl, λ _. refl)

instance abbrev pub kind_eq : Eq Kind
kind_eq = record { equal = kind_beq; equal_iff = kind_beq_iff }

pub record Msg : Type 0 where
  pub kind : Kind
  pub body : List ℕ

abbrev pub name_of : Kind → String
name_of login_request = "climsg.CReqLogin"
name_of login_response = "climsg.SRespLogin"

-- The wire format knows four texts.
abbrev pub code_of : String → Option ℕ
code_of s =
    if s == ""
    then some 0
    else if s == "gate1"
    then some 1
    else if s == "game1"
    then some 2
    else if s == "sid1"
    then some 3
    else none

abbrev pub text_of : ℕ → String
text_of n =
    if nat_eq n 0
    then ""
    else if nat_eq n 1
    then "gate1"
    else if nat_eq n 2
    then "game1"
    else "sid1"

text_of-code_of : (s : String) (n : ℕ) → code_of s ≡ some n → text_of n ≡ s
text_of-code_of s n h =
    ground (arith, eq_iff s "", eq_iff s "gate1", eq_iff s "game1", eq_iff s "sid1")

abbrev pub encode : Option ℕ → Option ℕ → Option ℕ → List ℕ → Result (List ℕ)
encode (some a) (some b) (some c) rest = ok (a ∷ b ∷ c ∷ rest)
encode _ _ _ _ = err (new "text")

abbrev pub marshal_common : MsgCommon → Result (List ℕ)
marshal_common c =
    encode (code_of c.source_id) (code_of c.target_id) (code_of c.sid)
      (c.mid ∷ c.uid ∷ c.route ∷ [])

abbrev pub unmarshal_common : List ℕ → Result MsgCommon
unmarshal_common (a ∷ b ∷ c ∷ mid ∷ uid ∷ route ∷ []) = ok (record {
  source_id = text_of a;
  target_id = text_of b;
  sid = text_of c;
  mid = mid;
  uid = uid;
  route = route;
})
unmarshal_common _ = err (new "proto: cannot parse")

abbrev pub proto : Proto Kind Msg
proto = record {
  type_of = λ m. m.kind;
  full_name = name_of;
  marshal = λ m. ok m.body;
  marshal_common = marshal_common;
  unmarshal = λ t bytes. ok (record { kind = t; body = bytes });
  unmarshal_common = unmarshal_common;
}

encode_inv :
    (a b c : Option ℕ) (rest body : List ℕ)
    → encode a b c rest ≡ ok body
    → (x : ℕ) × (y : ℕ) × (z : ℕ) × (a ≡ some x)
      × (b ≡ some y)
      × (c ≡ some z)
      × (body ≡ x ∷ y ∷ z ∷ rest)
encode_inv (some a) (some b) (some c) rest body h = (a, b, c, refl, refl, refl, ground arith)
encode_inv (some a) (some b) none rest body h = cc
encode_inv (some a) none c rest body h = cc
encode_inv none b c rest body h = cc

marshal_common_inv :
    (c : MsgCommon) (body : List ℕ) → marshal_common c ≡ ok body → unmarshal_common body ≡ ok c
marshal_common_inv c body h =
    let (x, y, z, hx, hy, hz, e) =
      encode_inv (code_of c.source_id) (code_of c.target_id) (code_of c.sid)
        (c.mid ∷ c.uid ∷ c.route ∷ []) body h in
    ap unmarshal_common e
    ∙ ap (λ (t : String). ok (record c { source_id = t; target_id = text_of y; sid = text_of z }))
        (text_of-code_of c.source_id x hx)
    ∙ ap (λ (t : String). ok (record c { target_id = t; sid = text_of z }))
        (text_of-code_of c.target_id y hy)
    ∙ ap (λ (t : String). ok (record c { sid = t })) (text_of-code_of c.sid z hz)

pub proto-IsLossless : IsLossless proto
proto-IsLossless = record { message = λ m body h. ground arith; common = marshal_common_inv }

abbrev pub login : Msg
login = record { kind = login_request; body = 7 ∷ 8 ∷ [] }

abbrev pub response : Msg
response = record { kind = login_response; body = 9 ∷ [] }

abbrev pub common : MsgCommon
common = record no_common { mid = 5 }
