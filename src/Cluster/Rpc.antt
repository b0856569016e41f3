-- ===== src/Cluster/Rpc.antt =====
-- A request and its answer, between requester.go on one node and Sender.Resp on another.
use xgame.Common.{
  none, ◌≢◌, ℕ_eq, ℕ, ◌≡◌, sym, subst, ap, ◌∙◌, inl, inr, some, String, List, [], ◌∷◌, ◌++◌, Eq,
}
use xgame.Go.{ok, Exec, continue-ok, ◌>>=◌}
use xgame.Pb.{MsgCommon, Proto, no_common}
use xgame.Packet.Registry.{type_hash, message_type}
use xgame.Packet.Registry.Consistency.{IsConsistent}
use xgame.Packet.Codec.{pack_message}
use xgame.Packet.Codec.RoundTrip.{IsLossless, Fits, pack_message_inv}
use xgame.Packet.Codec.Stream.{pack_message-IsConsistent}
use xgame.Discovery.{get_type}
use xgame.Cluster.{
  Site, Cluster, send_bytes, pack, remote_subject, with_registry, with_requester, request_async,
  resp,
}
use xgame.Common.Map
use xgame.Cluster.Callbacks.{
  Requester, register_callback, register_callback_filed, run_callback, run_callback-ok,
  unregister_callback-get,
}
use xgame.Cluster.Handlers.{Handler, response, Receiver, register_response, process}
use xgame.Cluster.Handlers.Listening.{filed_or, handler_of-filed, register_response-ok}
use xgame.Cluster.Sending.{Taken, taken_under, send_bytes_outcome}
use xgame.Cluster.Delivery.{process-pack}

module _ {T M : Type 0} ⦃e : Eq T⦄ (p : Proto T M) where
  -- The MsgCommon as the other node gets it.
  abbrev pub routed : MsgCommon → M → MsgCommon
  routed c m = record c { route = type_hash p (p.type_of m) }

  -- What receive posts for a message from another node: this handler with the message.
  abbrev pub PostsTo : {L : Type 0} → Handler L → Receiver T M L → List ℕ → MsgCommon → M → Type 0
  PostsTo h b bytes c m =
      process p bytes b ≡ (ok tt, record b { posted = b.posted ++ (h, (routed c m, m)) ∷ [] })

  -- The handler that is filed under the message's type, else the default one.
  abbrev pub Posts : {L : Type 0} → Receiver T M L → List ℕ → MsgCommon → M → Type 0
  Posts b bytes c m =
      PostsTo (filed_or (Map.get b.req_handlers (type_hash p (p.type_of m))) b.default_handler) b
        bytes c m

module _ {T M H : Type 0} ⦃e : Eq T⦄ (p : Proto T M) where
  -- PackMessage and SendBytes, as Resp, requestAsync and processPacket chain them.
  abbrev pub pack_send : Site → String → MsgCommon → M → Exec (Cluster T H) (Unit {0})
  pack_send site node_id c m = pack p c m >>= λ packed. send_bytes site node_id packed.1

  -- What such a chain has done when it returns no error.
  pub record Sent (site : Site) (node_id : String) (c : MsgCommon) (m : M) (s s' : Cluster T H)
      : Type 0 where
    pub bytes : List ℕ
    pub packed :
        (pack_message p c m s.registry).0
        ≡ ok (record c { route = type_hash p (p.type_of m) }, bytes)
    pub taken : Taken site node_id bytes s.published s'.published
    pub requester_kept : s'.requester ≡ s.requester
    pub registry_after : s'.registry ≡ (pack_message p c m s.registry).1

  send_bytes-ok :
      (site : Site) (node_id : String) (bytes : List ℕ) (s : Cluster T H)
      → (send_bytes site node_id bytes s).0 ≡ ok tt
      → (t : String) × (get_type site.discovery node_id ≡ ok t)
        × ((send_bytes site node_id bytes s).1
            ≡ record s { published = s.published ++ (remote_subject "node" t node_id, bytes) ∷ [] })
  send_bytes-ok site node_id bytes s h = elim (send_bytes_outcome site node_id bytes s) [
    | inl (_, stopped) ↦ absurd (cc (h, stopped))
    | inr (inl (_, unknown)) ↦ absurd (cc (h, unknown))
    | inr (inr (t, _, known, inl (x, _, refused))) ↦ absurd (cc (h, refused))
    | inr (inr (t, _, known, inr (_, done))) ↦ (t, known, ap (λ x. x.1) done)
  ]

  pub pack_send-ok :
      (site : Site) (node_id : String) (c : MsgCommon) (m : M) (s : Cluster T H)
      → IsConsistent p s.registry
      → (pack_send site node_id c m s).0 ≡ ok tt
      → Sent site node_id c m s (pack_send site node_id c m s).1
  unfolding pack with_registry
  pack_send-ok site node_id c m s k h =
      let sent : Cluster T H = record s { registry = (pack_message p c m s.registry).1 } in
      let (out, packed, step, h1) =
        continue-ok (pack_message p c m s.registry).0 (λ out. send_bytes site node_id out.1) sent
          h in
      let (t, known, done) = send_bytes-ok site node_id out.1 sent h1 in
      let v = pack_message_inv p c out.0 m out.1 s.registry k packed in
      record {
        bytes = out.1;
        packed = packed ∙ ap (λ c'. ok (c', out.1)) v.routed;
        taken =
            taken_under site node_id t out.1 s.published (pack_send site node_id c m s).1.published
              known (ap (λ x. x.1.published) step ∙ ap (λ (x : Cluster T H). x.published) done);
        requester_kept = ap (λ x. x.1.requester) step ∙ ap (λ (x : Cluster T H). x.requester) done;
        registry_after = ap (λ x. x.1.registry) step ∙ ap (λ (x : Cluster T H). x.registry) done;
      }

  -- Who has sent a message has its type registered.
  pub knows-Sent :
      {site : Site} {node_id : String} {c : MsgCommon} {m : M} {s s' : Cluster T H}
      → IsConsistent p s.registry
      → Sent site node_id c m s s'
      → (message_type s'.registry (type_hash p (p.type_of m)) ≡ some (p.type_of m))
        × IsConsistent p s'.registry
  knows-Sent {c} {m} {s} k v =
      let after = sym v.registry_after in
      (
        subst (λ r. message_type r (type_hash p (p.type_of m)) ≡ some (p.type_of m)) after
            (pack_message_inv p c _ m v.bytes s.registry k v.packed).registered.by_id,
        subst (IsConsistent p) after (pack_message-IsConsistent p c m s.registry k),
      )

  -- A message that was sent is received, on a node that knows its type.
  pub received-Sent :
      {L : Type 0} {site : Site} {node_id : String} {c : MsgCommon} {m : M} {s s' : Cluster T H}
      (lossless : IsLossless p) (b : Receiver T M L) (v : Sent site node_id c m s s')
      → IsConsistent p s.registry
      → Fits p (record c { route = type_hash p (p.type_of m) }) m
      → message_type b.registry (type_hash p (p.type_of m)) ≡ some (p.type_of m)
      → Posts p b v.bytes c m
  received-Sent {c} {m} {s} lossless b v k fits known =
      process-pack p lossless s.registry b c (record c { route = type_hash p (p.type_of m) }) m
        v.bytes k v.packed fits known
      ∙ ap (λ h. (ok tt, record b { posted = b.posted ++ (h, (routed p c m, m)) ∷ [] }))
          (handler_of-filed b (type_hash p (p.type_of m)))

-- The MsgCommon of a request, and of the answer to a message.
abbrev pub request_common : Site → String → ℕ → MsgCommon
request_common site node_id mid = record no_common {
  source_id = site.node_id;
  target_id = node_id;
  mid = mid;
}

abbrev pub answer_common : MsgCommon → MsgCommon
answer_common c = record c { source_id = c.target_id; target_id = c.source_id }

abbrev pub mid_of : {H : Type 0} → H → Requester H → ℕ
mid_of h q = (register_callback (some h) q).0

module _ {T M H : Type 0} ⦃e : Eq T⦄ (p : Proto T M) where
  request_async-ok :
      (site : Site) (node_id : String) (req : M) (h : H) (s : Cluster T H)
      → IsConsistent p s.registry
      → (request_async p site node_id req (some h) s).0 ≡ ok tt
      → Sent p site node_id
          (request_common site node_id (mid_of h s.requester))
          req
          (record s { requester = (register_callback (some h) s.requester).1 })
          (request_async p site node_id req (some h) s).1
  unfolding request_async with_requester
  request_async-ok site node_id req h s k done =
      pack_send-ok p site node_id (request_common site node_id (mid_of h s.requester)) req
        (record s { requester = (register_callback (some h) s.requester).1 }) k done

  pub resp-ok :
      (site : Site) (c : MsgCommon) (ans : M) (s : Cluster T H)
      → IsConsistent p s.registry
      → (resp p site c ans s).0 ≡ ok tt
      → Sent p site c.source_id (answer_common c) ans s (resp p site c ans s).1
  unfolding resp
  resp-ok site c ans s k done = pack_send-ok p site c.source_id (answer_common c) ans s k done

module _ {T M H L : Type 0} ⦃e : Eq T⦄ (p : Proto T M) where
  -- A request, its handler's answer, and the callback. When requestAsync to a node returns no error, NATS has
  -- taken the request under that node's subject, with the type of the member that has its id; and receive on the
  -- other node posts the handler that is filed for the request's type, or the default one, with the request and with
  -- the mid of its callback. When Sender.Resp there, for what was posted, returns no error either, NATS has taken the
  -- answer under the subject of the first node, with its type as a member there. On the first node, where
  -- RegisterResponse has returned for the type of the answer, receive posts the function that runs callbacks with
  -- the answer and with the same mid. The requester files the callback under this mid; as long as it does, and the
  -- callback returns, this function returns, and then the mid has no callback and all others have theirs, as the
  -- callback has left them. This is for a protobuf that undoes its marshalling, consistent registries, parts that fit
  -- their frames, and another node that has registered the type of the request.
  pub rpc_round_trip :
      (lossless : IsLossless p) (here there : Site) (node_id : String) (req ans sample : M) (h : H)
      (asking answering : Cluster T H) (before at_there : Receiver T M L)
      (call : H → M → Exec (Requester H) (Unit {0})) (later after : Requester H)
      → IsConsistent p asking.registry
      → IsConsistent p answering.registry
      → IsConsistent p before.registry
      → (request_async p here node_id req (some h) asking).0 ≡ ok tt
      → let mid = mid_of h asking.requester in
        let c = routed p (request_common here node_id mid) req in
        let at_here = (register_response p sample before).1 in
        let ran = run_callback call mid ans later in
        (resp p there c ans answering).0 ≡ ok tt
        → (register_response p sample before).0 ≡ ok tt
        → p.type_of sample ≡ p.type_of ans
        → Fits p c req
        → Fits p (routed p (answer_common c) ans) ans
        → message_type at_there.registry (type_hash p (p.type_of req)) ≡ some (p.type_of req)
        → Map.get later.handlers mid ≡ some h
        → call h ans later ≡ (ok tt, after)
        → ((bytes : List ℕ) × Taken here node_id bytes asking.published
              (request_async p here node_id req (some h) asking).1.published
            × Posts p at_there bytes (request_common here node_id mid) req)
          × ((bytes : List ℕ) × Taken there here.node_id bytes answering.published
                (resp p there c ans answering).1.published
              × PostsTo p response at_here bytes (answer_common c) ans)
          × (Map.get (request_async p here node_id req (some h) asking).1.requester.handlers mid
              ≡ some h)
          × (ran.0 ≡ ok tt)
          × (Map.get ran.1.handlers mid ≡ none)
          × ((other : ℕ)
              → other ≢ mid
              → Map.get ran.1.handlers other ≡ Map.get after.handlers other)
  rpc_round_trip lossless here there node_id req ans sample h asking answering before at_there call
        later after k k' k'' asked answered listens same fits fits' known waits returns =
      let v = request_async-ok p here node_id req h asking k asked in
      let mid = mid_of h asking.requester in
      let c = routed p (request_common here node_id mid) req in
      let at_here = (register_response p sample before).1 in
      let w = resp-ok p there c ans answering k' answered in
      let (filed, registered) = register_response-ok p sample before k'' listens in
      let ran = run_callback-ok call mid ans later after h waits returns in
      let (gone, kept) = unregister_callback-get mid after in
      (
        (v.bytes, v.taken, received-Sent p lossless at_there v k fits known),
        (
          w.bytes,
          w.taken,
          received-Sent p lossless at_here w k' fits' (
                subst (λ t. message_type at_here.registry (type_hash p t) ≡ some t) same registered)
              ∙ ap
                  (λ o. (
                    ok tt,
                    record at_here {
                      posted =
                          at_here.posted
                          ++ (
                            filed_or o at_here.default_handler,
                            (routed p (answer_common c) ans, ans),
                          )
                            ∷ [];
                    },
                  ))
                  (subst (λ t. Map.get at_here.req_handlers (type_hash p t) ≡ some response) same
                    filed),
        ),
        ap (λ (q : Requester H). Map.get q.handlers mid) v.requester_kept
            ∙ register_callback_filed h asking.requester,
        ap (λ x. x.0) ran,
        ap (λ x. Map.get x.1.handlers mid) ran ∙ gone,
        λ other away. ap (λ x. Map.get x.1.handlers other) ran ∙ kept other away,
      )
