-- ===== src/Cluster/Handlers/Listening.antt =====
-- How ListenMsg ends.
use xgame.Common.{
  String, ◌∙◌, refl, nat_eq_iff, ℕ, ℕ_eq, ◌≡◌, ap, inl, inr, true, none, some, Option, Eq, ◌==◌,
  if◌then◌else◌, arith,
}
use xgame.Common.Map
use xgame.Common.Map.{get-put}
use xgame.Go.{Result, ok, err, panic}
use xgame.Pb.{Proto}
use xgame.Packet.Registry.{Registry, register_message, type_hash, message_type}
use xgame.Packet.Registry.Consistency.{IsConsistent}
use xgame.Packet.Registry.Outcomes.{IsRegistered, register_outcome}
use xgame.Cluster.Handlers.{
  Handler, response, register_response, listener, Callback, Receiver, file, handler_found,
  handler_of, listen_msg,
}

module _ {T M L : Type 0} ⦃e : Eq T⦄ (p : Proto T M) where
  pub file-ok :
      (h : Handler L) (x : Result ℕ × Registry T) (id : ℕ) (b : Receiver T M L)
      → x.0 ≡ ok id
      → file p h x b
        ≡ (ok tt, record b { registry = x.1; req_handlers = Map.put b.req_handlers id h })
  unfolding file
  file-ok h (ok i, reg) id b q =
      ap (λ n. (ok tt, record b { registry = reg; req_handlers = Map.put b.req_handlers n h }))
        (ground (arith, q))
  file-ok h (err x, reg) id b q = cc
  file-ok h (panic x, reg) id b q = cc

  -- A function of two arguments, of which the first is a *facade.Sender.
  pub record IsListener (cbk : Callback M L) : Type 0 where
    pub function : cbk.is_func ≡ true
    pub two : cbk.num_in ≡ 2
    pub sender : cbk.takes_sender ≡ true

  -- What ListenMsg leaves when it returns.
  abbrev pub listening : Callback M L → Receiver T M L → Receiver T M L
  listening cbk b = record b {
    registry = (register_message p (some cbk.message) b.registry).1;
    req_handlers =
        Map.put b.req_handlers (type_hash p (p.type_of cbk.message)) (listener cbk.function);
  }

  -- ListenMsg of such a function returns, when no other type is registered under the id of the type of its second
  -- argument. This type is then registered.
  pub listen_msg-ok :
      (cbk : Callback M L) (b : Receiver T M L)
      → let t = p.type_of cbk.message in
        IsConsistent p b.registry
        → IsListener cbk
        → ((u : T) → message_type b.registry (type_hash p t) ≡ some u → u ≡ t)
        → (listen_msg p cbk b ≡ (ok tt, listening cbk b))
          × IsRegistered p t (listening cbk b).registry
  unfolding listen_msg
  listen_msg-ok cbk b k good free = elim (register_outcome p cbk.message b.registry k) [
    | inl (_, done, registered) ↦ (
      simp (good.function, good.two, good.sender)
          (file-ok (listener cbk.function) (register_message p (some cbk.message) b.registry)
            (type_hash p (p.type_of cbk.message)) b done),
      registered,
    )
    | inr (u, known, other, refused) ↦ absurd (other (free u known))
  ]

  -- Its function is then the handler of its type, and those of the other types are as before.
  pub handler_of-listening :
      (cbk : Callback M L) (b : Receiver T M L) (route : ℕ)
      → handler_of (listening cbk b) route ≡ (
          if type_hash p (p.type_of cbk.message) == route
          then listener cbk.function
          else handler_of b route)
  unfolding handler_of handler_found
  handler_of-listening cbk b route = ground (
    arith,
    get-put b.req_handlers (type_hash p (p.type_of cbk.message)) route (listener cbk.function),
  )

-- The handler of a route: the one that is filed under it, else the default one.
abbrev pub filed_or : {L : Type 0} → Option (Handler L) → Handler L → Handler L
filed_or (some h) default = h
filed_or none default = default

module _ {T M L : Type 0} where
  same_found :
      (o : Option (Handler L)) (b : Receiver T M L)
      → handler_found o b ≡ filed_or o b.default_handler
  unfolding handler_found
  same_found (some h) b = refl
  same_found none b = refl

  pub handler_of-filed :
      (b : Receiver T M L) (route : ℕ)
      → handler_of b route ≡ filed_or (Map.get b.req_handlers route) b.default_handler
  unfolding handler_of
  handler_of-filed b route = same_found (Map.get b.req_handlers route) b

module _ {T M L : Type 0} ⦃e : Eq T⦄ (p : Proto T M) where
  file-panic :
      (h : Handler L) (x : Result ℕ × Registry T) (b : Receiver T M L) (text : String)
      → x.0 ≡ panic text
      → (file p h x b).0 ≡ panic text
  unfolding file
  file-panic h (ok id, reg) b text q = cc
  file-panic h (err e, reg) b text q = cc
  file-panic h (panic t, reg) b text q = ground (arith, q)

  -- RegisterResponse that returns files the function that runs callbacks under the type of the answer, which is
  -- registered.
  pub register_response-ok :
      (m : M) (b : Receiver T M L)
      → IsConsistent p b.registry
      → (register_response p m b).0 ≡ ok tt
      → let after = (register_response p m b).1 in
        let id = type_hash p (p.type_of m) in
        (Map.get after.req_handlers id ≡ some response)
        × (message_type after.registry id ≡ some (p.type_of m))
  unfolding register_response
  register_response-ok m b k done = elim (register_outcome p m b.registry k) [
    | inl (_, good, registered) ↦
        let id = type_hash p (p.type_of m) in
        let filed =
          ap (λ x. x.1) (file-ok p response (register_message p (some m) b.registry) id b good) in
        (
          ap (λ (x : Receiver T M L). Map.get x.req_handlers id) filed
              ∙ get-put b.req_handlers id id response
              ∙ ground (arith, nat_eq_iff id id),
          ap (λ (x : Receiver T M L). message_type x.registry id) filed ∙ registered.by_id,
        )
    | inr (u, known, other, refused) ↦ absurd (
        cc (
          done,
          file-panic response (register_message p (some m) b.registry) b _ (ap (λ x. x.0) refused),
        ))
  ]
