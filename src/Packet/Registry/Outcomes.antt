-- ===== src/Packet/Registry/Outcomes.antt =====
-- How the calls of hash.go end, and what they leave registered.
use xgame.Common.{
  ℕ, ◌≡◌, refl, sym, ◌∙◌, ap, ◌⊎◌, inl, inr, ◌≢◌, Option, none, some, String, List, [], ◌∷◌, Eq,
  ℕ_eq, ◌==◌, arith, Option-cases, Bool-cases, nat_eq_iff,
}
use xgame.Common.Map.{get-put}
use xgame.Go.{Result, ok, err, panic}
use xgame.Go.Errors.{errorf}
use xgame.Go.Fmt.{num, text, sprintf}
use xgame.Pb.{Proto}
use xgame.Packet.Registry.{
  Registry, type_hash, register_message, register_found, conflict, on_marshal, on_unmarshal,
  unmarshal_found, marshal_found, marshal_registered, with_id, message_type, message_id,
  message_name,
}
use xgame.Packet.Registry.Consistency.{IsConsistent}

module _ {T M : Type 0} ⦃e : Eq T⦄ (p : Proto T M) where
  -- A type is registered when its id, its type and its name are found.
  pub record IsRegistered (t : T) (r : Registry T) : Type 0 where
    pub by_id : message_type r (type_hash p t) ≡ some t
    pub by_type : message_id r t ≡ some (type_hash p t)
    pub by_name : message_name r (type_hash p t) ≡ some (p.full_name t)

  found-IsRegistered :
      (r : Registry T) (t : T)
      → IsConsistent p r
      → message_type r (type_hash p t) ≡ some t
      → IsRegistered t r
  found-IsRegistered r t c h = record {
    by_id = h;
    by_type = c.forth _ t h;
    by_name = c.named _ t h;
  }

  added-IsRegistered : (r : Registry T) (t : T) → IsRegistered t (register_found p none t r).1
  unfolding register_found
  added-IsRegistered r t = record {
    by_id = simp get-put (ground (arith, nat_eq_iff (type_hash p t) (type_hash p t)));
    by_type = simp get-put (ground (arith, e.equal_iff t t));
    by_name = simp get-put (ground (arith, nat_eq_iff (type_hash p t) (type_hash p t)));
  }

  -- On a consistent registry, RegisterMessage of a message panics with the names of both and changes nothing when
  -- another type is registered under the checksum of its name. When no other type is, it returns this checksum and leaves
  -- the type registered under its id, with its id and with its name.
  pub register_outcome :
      (m : M) (r : Registry T)
      → IsConsistent p r
      → let t = p.type_of m in
        let after = register_message p (some m) r in
        (((u : T) → message_type r (type_hash p t) ≡ some u → u ≡ t)
          × (after.0 ≡ ok (type_hash p t))
          × IsRegistered t after.1)
        ⊎ ((u : T) × (message_type r (type_hash p t) ≡ some u)
            × (u ≢ t)
            × (after ≡ (
              panic (sprintf "哈希冲突 %s %s" (text (p.full_name u) ∷ text (p.full_name t) ∷ [])),
              r,
            )))
  unfolding register_message conflict
  register_outcome m r c =
      let t = p.type_of m in
      elim (Option-cases (message_type r (type_hash p t))) [
        | inl fresh ↦ rw (fresh, register_found) (inl (λ u h. cc h, refl, added-IsRegistered r t))
        | inr (old, known) ↦ elim (Bool-cases (old == t)) [
          | inl same ↦
              let q = (e.equal_iff old t).0 same in
              rw (known, register_found, same)
                (inl (λ u h. cc (h, q), refl, found-IsRegistered r t c (rw known (ap some q))))
          | inr other ↦
              rw (known, register_found, other)
                (inr (old, refl, λ q. cc ((e.equal_iff old t).1 q), refl))
        ]
      ]

  -- An id that is registered keeps its type through every call of RegisterMessage, whatever the
  -- message.
  pub register_keeps :
      (m : Option M) (r : Registry T) (id : ℕ) (u : T)
      → message_type r id ≡ some u
      → message_type (register_message p m r).1 id ≡ some u
  unfolding register_message register_found
  register_keeps none r id u h = h
  register_keeps (some m) r id u h =
      let t = p.type_of m in
      elim (Option-cases (message_type r (type_hash p t))) [
        | inl fresh ↦
            rw (fresh, register_found)
              (simp get-put (ground (arith, nat_eq_iff (type_hash p t) id)))
        | inr (old, known) ↦ elim (Bool-cases (old == t)) [
          | inl same ↦ rw (known, register_found, same) h
          | inr other ↦ rw (known, register_found, other) h
        ]
      ]

  -- RegisterMessage registers nothing under other ids.
  pub register_other :
      (m : M) (r : Registry T) (id : ℕ)
      → id ≢ type_hash p (p.type_of m)
      → message_type (register_message p (some m) r).1 id ≡ message_type r id
  unfolding register_message register_found
  register_other m r id away =
      let t = p.type_of m in
      elim (Option-cases (message_type r (type_hash p t))) [
        | inl fresh ↦
            rw (fresh, register_found)
              (simp get-put (ground (arith, nat_eq_iff (type_hash p t) id, away)))
        | inr (old, known) ↦ elim (Bool-cases (old == t)) [
          | inl same ↦ rw (known, register_found, same) refl
          | inr other ↦ rw (known, register_found, other) refl
        ]
      ]

  with_id_inv :
      (i id : ℕ) (x : Result (List ℕ)) (body : List ℕ)
      → with_id p i x ≡ ok (id, body)
      → (i ≡ id) × (x ≡ ok body)
  unfolding with_id
  with_id_inv i id x body h = ground arith

  -- On a consistent registry, when OnMarshal succeeds it returns the checksum of the name of the
  -- message's type with the bytes of proto.Marshal, and leaves the type registered.
  pub marshal_outcome :
      (m : M) (r : Registry T) (id : ℕ) (body : List ℕ)
      → IsConsistent p r
      → (on_marshal p m r).0 ≡ ok (id, body)
      → (id ≡ type_hash p (p.type_of m))
        × (p.marshal m ≡ ok body)
        × IsRegistered (p.type_of m) (on_marshal p m r).1
  unfolding on_marshal conflict
  marshal_outcome m r id body c h =
      let t = p.type_of m in
      elim (Option-cases (message_id r t)) [
        | inl fresh ↦ elim (register_outcome m r c) [
          | inl (_, done, reg) ↦
              let (e1, e2) =
                with_id_inv (type_hash p t) id (p.marshal m) body
                  (rw (fresh, marshal_found, done, marshal_registered) at h) in
              rw (fresh, marshal_found) (sym e1, e2, reg)
          | inr (u, _, _, e) ↦ cc (rw (fresh, marshal_found, e, marshal_registered) at h)
        ]
        | inr (i, known) ↦
            let (e1, e2) = with_id_inv i id (p.marshal m) body (rw (known, marshal_found) at h) in
            let q = c.hashed i t (c.back i t known) in
            rw (known, marshal_found)
              (sym e1 ∙ q, e2, found-IsRegistered r t c (rw (← q) (c.back i t known)))
      ]

  -- OnUnmarshal decodes with the type that is registered under the id.
  with_id-calm :
      (id : ℕ) (r : Result (List ℕ)) (x : String) → r ≢ panic x → with_id p id r ≢ panic x
  unfolding with_id
  with_id-calm id (ok body) x calm = λ h. cc
  with_id-calm id (err e) x calm = λ h. cc
  with_id-calm id (panic y) x calm = λ h. calm (ground arith)

  -- OnMarshal of a registered type.
  pub on_marshal-known :
      (m : M) (r : Registry T) (id : ℕ)
      → message_id r (p.type_of m) ≡ some id
      → ((x : String) → p.marshal m ≢ panic x)
      → ((on_marshal p m r).1 ≡ r) × ((x : String) → (on_marshal p m r).0 ≢ panic x)
  unfolding on_marshal
  on_marshal-known m r id h calm =
      rw (h, marshal_found) (refl, λ x. with_id-calm id (p.marshal m) x (calm x))

  pub on_unmarshal-known :
      (r : Registry T) (t : T) (id : ℕ) (body : List ℕ)
      → message_type r id ≡ some t
      → on_unmarshal p r id body ≡ p.unmarshal t body
  unfolding on_unmarshal
  on_unmarshal-known r t id body h = rw (h, unmarshal_found)

  pub on_unmarshal-unknown :
      (r : Registry T) (id : ℕ) (body : List ℕ)
      → message_type r id ≡ none
      → on_unmarshal p r id body ≡ err (errorf "message %v not registered" (num id ∷ []))
  unfolding on_unmarshal
  on_unmarshal-unknown r id body h = rw (h, unmarshal_found)
