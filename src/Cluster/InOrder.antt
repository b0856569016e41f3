-- ===== src/Cluster/InOrder.antt =====
-- The receive loop of cluster.go over all the messages that NATS gives to a node.
use mathlib.Core.List.{append-nil, append_assoc}
use xgame.Common.{
  ℕ, ℕ_eq, ◌≡◌, refl, sym, ap, ◌∙◌, Option, none, some, List, [], ◌∷◌, ◌++◌, map, Eq,
}
use xgame.Go.{ok, err}
use xgame.Go.Errors.{Error}
use xgame.Pb.{MsgCommon, Proto}
use xgame.Packet.Registry.{Registry, message_type}
use xgame.Packet.Registry.Consistency.{IsConsistent}
use xgame.Packet.Codec.{pack_message, read_message}
use xgame.Packet.Codec.Framing.{reader}
use xgame.Packet.Codec.RoundTrip.{IsLossless, Fits}
use xgame.Common.Map
use xgame.Cluster.Handlers.{
  Handler, Receiver, handler_of, handler_found, process, received, receive,
}
use xgame.Cluster.Handlers.Listening.{filed_or, handler_of-filed}
use xgame.Cluster.Delivery.{process-pack}

module _ {T M : Type 0} ⦃e : Eq T⦄ (p : Proto T M) where
  -- What NATS gives to a node with this registry, and the messages in it: frames that other nodes have packed, and
  -- bytes that cannot be read.
  pub data Arrivals (here : Registry T) : List (List ℕ) → List (MsgCommon × M) → Type 0 where
    none_left : Arrivals here [] []
    message :
        {xs : List (List ℕ)} {ms : List (MsgCommon × M)} (r : Registry T) (c c' : MsgCommon) (m : M)
        (bytes : List ℕ)
        → IsConsistent p r
        → (pack_message p c m r).0 ≡ ok (c', bytes)
        → Fits p c' m
        → message_type here c'.route ≡ some (p.type_of m)
        → Arrivals here xs ms
        → Arrivals here (bytes ∷ xs) ((c', m) ∷ ms)
    noise :
        {xs : List (List ℕ)} {ms : List (MsgCommon × M)} (bytes : List ℕ) (x : Error)
        → (read_message p here (reader bytes none)).0 ≡ err x
        → Arrivals here xs ms
        → Arrivals here (bytes ∷ xs) ms

module _ {T M L : Type 0} where
  found_kept :
      (o : Option (Handler L)) (b : Receiver T M L) (l : List (Handler L × (MsgCommon × M)))
      → handler_found o (record b { posted = l }) ≡ handler_found o b
  unfolding handler_found
  found_kept (some h) b l = refl
  found_kept none b l = refl

  -- What was posted has no say in which handler a message gets.
  handler_kept :
      (b : Receiver T M L) (l : List (Handler L × (MsgCommon × M))) (route : ℕ)
      → handler_of (record b { posted = l }) route ≡ handler_of b route
  unfolding handler_of
  handler_kept b l route = found_kept (Map.get b.req_handlers route) b l

  abbrev with_found : Receiver T M L → MsgCommon × M → Handler L × (MsgCommon × M)
  with_found b m = (handler_of b m.0.route, m)

  -- A message with the handler that is filed under its route, else with the default one.
  abbrev pub with_handler : Receiver T M L → MsgCommon × M → Handler L × (MsgCommon × M)
  with_handler b m = (filed_or (Map.get b.req_handlers m.0.route) b.default_handler, m)

  handlers_kept :
      (b : Receiver T M L) (l : List (Handler L × (MsgCommon × M))) (ms : List (MsgCommon × M))
      → map (with_found (record b { posted = l })) ms ≡ map (with_found b) ms
  handlers_kept b l ms = ap (λ f. map f ms) (λ i m. (handler_kept b l m.0.route i, m))

module _ {T M L : Type 0} ⦃e : Eq T⦄ (p : Proto T M) (lossless : IsLossless p) where
  process-noise :
      (b : Receiver T M L) (bytes : List ℕ) (x : Error)
      → (read_message p b.registry (reader bytes none)).0 ≡ err x
      → process p bytes b ≡ (ok tt, b)
  unfolding process received
  process-noise b bytes x h = ap (λ o. received p o b) h

  posts :
      (here : Registry T) (b : Receiver T M L) {xs : List (List ℕ)} {ms : List (MsgCommon × M)}
      → b.registry ≡ here
      → Arrivals p here xs ms
      → receive p xs b ≡ (ok tt, record b { posted = b.posted ++ map (with_found b) ms })
  unfolding receive
  posts here b same none_left =
      ap (λ l. (ok tt, record b { posted = l })) (sym (append-nil b.posted))
  posts here b {ms} same (message {ms = rest_of} r c c' m bytes k packed fits known rest) =
      simp
        (process-pack p lossless r b c c' m bytes k packed fits
          (ap (λ reg. message_type reg c'.route) same ∙ known))
        (posts here (record b { posted = b.posted ++ (handler_of b c'.route, (c', m)) ∷ [] }) same
            rest
          ∙ ap (λ l. (ok tt, record b { posted = l }))
              (append_assoc b.posted ((handler_of b c'.route, (c', m)) ∷ []) _
                ∙ ap (λ l. b.posted ++ (handler_of b c'.route, (c', m)) ∷ l)
                    (handlers_kept b (b.posted ++ (handler_of b c'.route, (c', m)) ∷ []) rest_of)))
  posts here b same (noise bytes x bad rest) =
      simp
        (process-noise b bytes x
          (ap (λ reg. (read_message p reg (reader bytes none)).0) same ∙ bad))
        (posts here b same rest)

  -- The receive loop over what NATS gives to a node, where each arrival is either a frame that another node has packed
  -- on a consistent registry, whose parts fit their frames and whose type this node has registered, or bytes that
  -- ReadMessage here answers with an error. The loop posts every message of the first kind, with the handler that is
  -- filed under its route, or the default one if none is, in the order in which NATS gives them, once each, and skips
  -- the second kind. This is for a protobuf that undoes its marshalling.
  pub posted_in_order :
      (b : Receiver T M L) (xs : List (List ℕ)) (ms : List (MsgCommon × M))
      → Arrivals p b.registry xs ms
      → receive p xs b ≡ (ok tt, record b { posted = b.posted ++ map (with_handler b) ms })
  posted_in_order b xs ms arrivals =
      posts b.registry b refl arrivals
      ∙ ap (λ f. (ok tt, record b { posted = b.posted ++ map f ms }))
          (λ i m. (handler_of-filed b m.0.route i, m))
