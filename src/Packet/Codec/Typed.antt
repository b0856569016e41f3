-- ===== src/Packet/Codec/Typed.antt =====
-- The type of what ReadMessage returns.
use xgame.Common.{
  ℕ, ℕ_eq, ◌≡◌, sym, ap, subst, not, length, ◌∙◌, some, Option-cases, inl, inr, List, Eq, arith,
  nat_eq,
}
use xgame.Go.{Result, ok, continue-ok, guard}
use xgame.Go.Errors.{packet_connect_closed}
use xgame.Pb.{MsgCommon, Proto}
use xgame.Packet.Registry.{Registry, message_type, on_unmarshal}
use xgame.Packet.Registry.Outcomes.{on_unmarshal-known, on_unmarshal-unknown}
use xgame.Packet.Codec.{Reader, read_limit, parse_head, read_bodies, read_message, head_length}

module _ {T M : Type 0} ⦃e : Eq T⦄ (p : Proto T M) where
  -- What protobuf documents: unmarshalling into a new message of a type gives a message of this type.
  abbrev pub IsTypeSafe : Type 0
  IsTypeSafe = (t : T) (body : List ℕ) (m : M) → p.unmarshal t body ≡ ok m → p.type_of m ≡ t

  unmarshal_type :
      (safe : IsTypeSafe) (reg : Registry T) (id : ℕ) (body : List ℕ) (m : M)
      → on_unmarshal p reg id body ≡ ok m
      → message_type reg id ≡ some (p.type_of m)
  unmarshal_type safe reg id body m h = elim (Option-cases (message_type reg id)) [
    | inl unknown ↦ cc (h, on_unmarshal-unknown p reg id body unknown)
    | inr (t, known) ↦
        known ∙ ap some (sym (safe t body m (sym (on_unmarshal-known p reg t id body known) ∙ h)))
  ]

  same_pair :
      (c c' : MsgCommon) (m m' : M)
      → ◌≡◌ {A = Result (MsgCommon × M)} (ok (c, m)) (ok (c', m'))
      → (c ≡ c') × (m ≡ m')
  same_pair c c' m m' h = (ground (arith, h), ground (arith, h))

  bodies_type :
      (safe : IsTypeSafe) (reg : Registry T) (lens : ℕ × ℕ) (r : Reader) (c : MsgCommon) (m : M)
      → (read_bodies p reg lens r).0 ≡ ok (c, m)
      → message_type reg c.route ≡ some (p.type_of m)
  unfolding read_bodies
  bodies_type safe reg (a, b) r c m h =
      let (raw, got, step, h1) = continue-ok (read_limit a r).0 _ (read_limit a r).1 h in
      let (c', got1, step1, h2) = continue-ok (p.unmarshal_common raw) _ (read_limit a r).1 h1 in
      let (raw', got2, step2, h3) =
        continue-ok (read_limit b (read_limit a r).1).0 _ (read_limit b (read_limit a r).1).1 h2 in
      let (m', got3, step3, h4) =
        continue-ok (on_unmarshal p reg c'.route raw') _ (read_limit b (read_limit a r).1).1 h3 in
      let (q, q') = same_pair c' c m' m h4 in
      subst (λ x. message_type reg c.route ≡ some (p.type_of x)) q'
        (ap (λ (x : MsgCommon). message_type reg x.route) (sym q)
          ∙ unmarshal_type safe reg c'.route raw' m' got3)

  -- ReadMessage returns a message of the type that is registered under the route that came with it.
  pub read_message-typed :
      (safe : IsTypeSafe) (reg : Registry T) (r : Reader) (c : MsgCommon) (m : M)
      → (read_message p reg r).0 ≡ ok (c, m)
      → message_type reg c.route ≡ some (p.type_of m)
  unfolding read_message
  read_message-typed safe reg r c m h =
      let (header, got, step, h1) =
        continue-ok (read_limit head_length r).0 _ (read_limit head_length r).1 h in
      let s = (read_limit head_length r).1 in
      let (_, open_, step1, h2) =
        continue-ok (guard (not (nat_eq (length header) 0)) packet_connect_closed s).0 _
          (guard (not (nat_eq (length header) 0)) packet_connect_closed s).1 h1 in
      let (lens, parsed, step2, h3) =
        continue-ok (parse_head header) (read_bodies p reg)
          (guard (not (nat_eq (length header) 0)) packet_connect_closed s).1 h2 in
      bodies_type safe reg lens _ c m h3
