-- ===== src/Cluster/Delivery.antt =====
-- From PublishMsg on one node to the handler on another.
use mathlib.Core.List.{append-nil}
use xgame.Common.{ℕ, ℕ_eq, ◌≡◌, sym, ap, ◌∙◌, subst, none, some, String, List, [], ◌∷◌, ◌++◌, Eq}
use xgame.Go.{ok}
use xgame.Pb.{MsgCommon, Proto}
use xgame.Packet.Registry.{Registry, type_hash, message_type}
use xgame.Packet.Registry.Consistency.{IsConsistent}
use xgame.Packet.Codec.{pack_message, read_message}
use xgame.Packet.Codec.Framing.{reader}
use xgame.Packet.Codec.RoundTrip.{IsLossless, Fits, pack_message_inv, read-pack}
use xgame.Common.Map
use xgame.Cluster.{Site, Cluster, publish_msg}
use xgame.Cluster.Handlers.{Receiver, handler_of, process, received}
use xgame.Cluster.Handlers.Listening.{filed_or, handler_of-filed}
use xgame.Cluster.Sending.{Taken, taken_under, publish_msg-ok, common_from}

module _ {T M : Type 0} ⦃e : Eq T⦄ (p : Proto T M) where
  -- What the receiving node gets: the MsgCommon with both node ids and the route of the message's type.
  abbrev pub sent_common : Site → String → M → MsgCommon
  sent_common site node_id m = record (common_from site node_id) {
    route = type_hash p (p.type_of m);
  }

module _ {T M L : Type 0} ⦃e : Eq T⦄ (p : Proto T M) where
  -- What receive does with a frame, on a node that has the type of its message.
  pub process-pack :
      (lossless : IsLossless p) (r : Registry T) (b : Receiver T M L) (c c' : MsgCommon) (m : M)
      (bytes : List ℕ)
      → IsConsistent p r
      → (pack_message p c m r).0 ≡ ok (c', bytes)
      → Fits p c' m
      → message_type b.registry c'.route ≡ some (p.type_of m)
      → process p bytes b
        ≡ (ok tt, record b { posted = b.posted ++ (handler_of b c'.route, (c', m)) ∷ [] })
  unfolding process received
  process-pack lossless r b c c' m bytes k h fits known =
      ap (λ x. received p x.0 b)
        (ap (λ xs. read_message p b.registry (reader xs none)) (sym (append-nil bytes))
          ∙ read-pack p lossless r b.registry c c' m bytes [] none k h fits known)

module _ {T M H L : Type 0} ⦃e : Eq T⦄ (p : Proto T M) where
  -- With a protobuf that undoes its marshalling: when PublishMsg to a node returns no error, on a consistent
  -- registry, NATS has taken one more message, under the subject of the node, with the type of the member that has
  -- its id; and receive on any node that has the message's type registered posts, for the bytes of this message, the
  -- handler that is filed there under the route of the type, or the default one if none is, with the same message and
  -- with a MsgCommon that names both nodes, when both parts fit their frame.
  pub delivered :
      (lossless : IsLossless p) (site : Site) (node_id : String) (m : M) (s : Cluster T H)
      (b : Receiver T M L)
      → IsConsistent p s.registry
      → (publish_msg p site node_id m s).0 ≡ ok tt
      → Fits p (sent_common p site node_id m) m
      → message_type b.registry (type_hash p (p.type_of m)) ≡ some (p.type_of m)
      → (bytes : List ℕ) × Taken site node_id bytes s.published
          (publish_msg p site node_id m s).1.published
        × (process p bytes b ≡ (
          ok tt,
          record b {
            posted =
                b.posted
                ++ (
                  filed_or (Map.get b.req_handlers (type_hash p (p.type_of m))) b.default_handler,
                  (sent_common p site node_id m, m),
                )
                  ∷ [];
          },
        ))
  delivered lossless site node_id m s b k h fits known =
      let v = publish_msg-ok p site node_id m s h in
      let w =
        pack_message_inv p (common_from site node_id) v.common m v.bytes s.registry k v.packed in
      (
        v.bytes,
        taken_under site node_id v.node_type v.bytes s.published
            (publish_msg p site node_id m s).1.published v.known v.taken,
        process-pack p lossless s.registry b (common_from site node_id)
              (sent_common p site node_id m) m v.bytes k
              (subst
                (λ c. (pack_message p (common_from site node_id) m s.registry).0 ≡ ok (c, v.bytes))
                w.routed v.packed)
              fits known
            ∙ ap
                (λ l. (
                  ok tt,
                  record b { posted = b.posted ++ (l, (sent_common p site node_id m, m)) ∷ [] },
                ))
                (handler_of-filed b (type_hash p (p.type_of m))),
      )
