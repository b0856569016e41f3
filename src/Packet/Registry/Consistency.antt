-- ===== src/Packet/Registry/Consistency.antt =====
-- What holds of the registry of hash.go between calls.
use xgame.Common.{
  ℕ, ◌≡◌, inl, inr, Option, none, some, Eq, ℕ_eq, ◌==◌, arith, Option-cases, Bool-cases, nat_eq_iff,
}
use xgame.Common.Map.{get-put, get-empty}
use xgame.Pb.{Proto}
use xgame.Packet.Registry.{
  Registry, empty_registry, type_hash, register_message, register_found, on_marshal, marshal_found,
  message_type, message_id, message_name,
}

module _ {T M : Type 0} ⦃e : Eq T⦄ (p : Proto T M) where
  -- The maps from ids and from types are inverse to one another, ids are checksums of names, and each
  -- registered id has its name.
  pub record IsConsistent (r : Registry T) : Type 0 where
    pub hashed : (id : ℕ) (t : T) → message_type r id ≡ some t → id ≡ type_hash p t
    pub forth : (id : ℕ) (t : T) → message_type r id ≡ some t → message_id r t ≡ some id
    pub back : (id : ℕ) (t : T) → message_id r t ≡ some id → message_type r id ≡ some t
    pub named :
        (id : ℕ) (t : T) → message_type r id ≡ some t → message_name r id ≡ some (p.full_name t)

  pub empty-IsConsistent : IsConsistent empty_registry
  empty-IsConsistent = record {
    hashed = λ id t h. cc (get-empty {V = T} id);
    forth = λ id t h. cc (get-empty {V = T} id);
    back = λ id t h. cc (get-empty {V = ℕ} t);
    named = λ id t h. cc (get-empty {V = T} id);
  }

  added-IsConsistent :
      (r : Registry T) (t : T)
      → IsConsistent r
      → message_type r (type_hash p t) ≡ none
      → IsConsistent (register_found p none t r).1
  unfolding register_found
  added-IsConsistent r t c fresh = record {
    hashed = λ id u. simp get-put (ground (arith, c.hashed id u, nat_eq_iff (type_hash p t) id));
    forth = λ id u. simp get-put (
        ground (
          arith,
          c.forth id u,
          c.back (type_hash p t) t,
          nat_eq_iff (type_hash p t) id,
          e.equal_iff t u,
          c.hashed id u,
        ));
    back = λ id u.
        simp get-put (ground (arith, c.back id u, nat_eq_iff (type_hash p t) id, e.equal_iff t u));
    named = λ id u. simp get-put (ground (arith, c.named id u, nat_eq_iff (type_hash p t) id));
  }

  -- RegisterMessage, of nil, a new type, a known type or a type with the checksum of another, keeps
  -- the registry consistent: the maps from ids and from types inverse to one another, every id the
  -- checksum of its type's name, and every registered id named.
  pub register-IsConsistent :
      (m : Option M) (r : Registry T) → IsConsistent r → IsConsistent (register_message p m r).1
  unfolding register_message
  register-IsConsistent none r c = c
  register-IsConsistent (some m) r c =
      let t = p.type_of m in
      elim (Option-cases (message_type r (type_hash p t))) [
        | inl fresh ↦ rw fresh (added-IsConsistent r t c fresh)
        | inr (old, known) ↦ elim (Bool-cases (old == t)) [
          | inl same ↦ rw (known, register_found, same) c
          | inr other ↦ rw (known, register_found, other) c
        ]
      ]

  pub on_marshal-IsConsistent :
      (m : M) (r : Registry T) → IsConsistent r → IsConsistent (on_marshal p m r).1
  unfolding on_marshal
  on_marshal-IsConsistent m r c = elim (Option-cases (message_id r (p.type_of m))) [
    | inl fresh ↦ rw (fresh, marshal_found) (register-IsConsistent (some m) r c)
    | inr (i, known) ↦ rw (known, marshal_found) c
  ]
