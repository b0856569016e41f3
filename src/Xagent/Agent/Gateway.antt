-- ===== src/Xagent/Agent/Gateway.antt =====
-- A client's message on its way through the gate to a server node, and the answer on its way back.
use xgame.Common.{
  eq_iff, ℕ, ℕ_eq, string_eq, ◌<◌, ◌≡◌, ap, ◌∙◌, inl, inr, none, some, String, List, [], ◌∷◌, ◌++◌,
  Eq, arith,
}
use xgame.Common.Map
use xgame.Common.Map.{get-put}
use xgame.Go.{ok}
use xgame.Pb.{MsgCommon, Session, Member, Proto}
use xgame.Packet.Registry.{type_hash, message_type}
use xgame.Packet.Registry.Consistency.{IsConsistent}
use xgame.Packet.Codec.RoundTrip.{IsLossless, Fits}
use xgame.Discovery.{Discovery, random}
use xgame.Discovery.Members.{IsKeyed, random_sound}
use xgame.Cluster.{Site, Cluster, remote_subject, resp}
use xgame.Cluster.Handlers.{Receiver}
use xgame.Cluster.Handlers.Listening.{filed_or}
use xgame.Cluster.Sending.{Taken}
use xgame.Cluster.Rpc.{
  routed, Posts, PostsTo, Sent, pack_send-ok, received-Sent, resp-ok, answer_common,
}
use xgame.Xagent.Agents.{Agents, Pointer, bind_sid, get_agent, default_receiver}
use xgame.Xagent.Route.{RouteMgr, node_type_of}
use xgame.Xagent.Agent.{process_packet, packet_for}

-- The MsgCommon that processPacket sends on.
abbrev pub client_common : Site → Session → Member → MsgCommon → MsgCommon
client_common site session member c = record c {
  source_id = site.node_id;
  target_id = member.node_id;
  uid = session.uid;
  sid = session.sid;
}

module _ {T M H : Type 0} ⦃e : Eq T⦄ (p : Proto T M) where
  pub process_packet-ok :
      (site : Site) (intn : ℕ → ℕ) (routes : RouteMgr) (session : Session) (c : MsgCommon) (m : M)
      (s : Cluster T H) (member : Member)
      → IsConsistent p s.registry
      → random intn site.discovery (node_type_of routes c.route) ≡ some member
      → (process_packet p site intn routes session c m s).0 ≡ ok tt
      → Sent p site member.node_id
          (client_common site session member c)
          m
          s
          (process_packet p site intn routes session c m s).1
  unfolding process_packet
  process_packet-ok site intn routes session c m s member k chosen done =
      rw (chosen, packet_for)
        (pack_send-ok p site member.node_id (client_common site session member c) m s k
          (rw (chosen, packet_for) at done))

bound :
    (agents : Agents) (a : Pointer) → get_agent (bind_sid a agents) (agents.session a).sid ≡ some a
unfolding bind_sid
bound agents a = let sid = (agents.session a).sid in simp get-put (ground (arith, eq_iff sid sid))

chosen_type :
    (intn : ℕ → ℕ) (n : Discovery) (typ : String) (member : Member)
    → ((k : ℕ) → 0 < k → intn k < k)
    → IsKeyed n
    → random intn n typ ≡ some member
    → member.node_type ≡ typ
chosen_type intn n typ member fair keyed chosen = elim (random_sound intn n typ fair keyed) [
  | inl (m, found, _, same) ↦ ground (arith, chosen, found, same)
  | inr (lost, _) ↦ cc (chosen, lost)
]

-- The member that Random has chosen is the one that is stored under its id.
pub chosen_stored :
    (intn : ℕ → ℕ) (n : Discovery) (typ : String) (member stored : Member)
    → ((k : ℕ) → 0 < k → intn k < k)
    → IsKeyed n
    → random intn n typ ≡ some member
    → Map.get n.member_map member.node_id ≡ some stored
    → stored ≡ member
chosen_stored intn n typ member stored fair keyed chosen kept =
    elim (random_sound intn n typ fair keyed) [
      | inl (m, found, own, _) ↦ cc (kept, own, chosen, found)
      | inr (lost, _) ↦ cc (chosen, lost)
    ]

module _ {T M H L : Type 0} ⦃e : Eq T⦄ (p : Proto T M) where
  -- A client's message and its answer. When processPacket sends a message on without an error, the member that
  -- Random has chosen is of the type that serves the message's route, NATS has taken the message under the
  -- subject of this member, and receive there posts the handler that is filed for the message's type, or the default
  -- one, with the message, the client's session id and its user. When Sender.Resp there, for what was posted, returns
  -- no error either, NATS has taken the answer under the subject of the gate, with its type as a member there, and
  -- receive on the gate, which has no handler for the answer's type, posts its default handler with the answer. Once
  -- BindSID has filed the client's agent, the agent that this handler finds for the answer is that one. This is for a
  -- protobuf that undoes its marshalling, consistent registries, members under their own ids, a rand.Intn(k) below k,
  -- parts that fit their frames, and nodes that have registered what they receive.
  pub gateway_round_trip :
      (lossless : IsLossless p) (intn : ℕ → ℕ) (gate there : Site) (routes : RouteMgr)
      (c : MsgCommon) (m ans : M) (member : Member) (relaying answering : Cluster T H)
      (at_gate at_there : Receiver T M L) (agents : Agents) (a : Pointer)
      → ((k : ℕ) → 0 < k → intn k < k)
      → IsKeyed gate.discovery
      → IsConsistent p relaying.registry
      → IsConsistent p answering.registry
      → random intn gate.discovery (node_type_of routes c.route) ≡ some member
      → let session = agents.session a in
        let sent = client_common gate session member c in
        let answer = answer_common (routed p sent m) in
        let relayed = process_packet p gate intn routes session c m relaying in
        let answered = resp p there (routed p sent m) ans answering in
        relayed.0 ≡ ok tt
        → answered.0 ≡ ok tt
        → Fits p (routed p sent m) m
        → Fits p (routed p answer ans) ans
        → message_type at_there.registry (type_hash p (p.type_of m)) ≡ some (p.type_of m)
        → message_type at_gate.registry (type_hash p (p.type_of ans)) ≡ some (p.type_of ans)
        → Map.get at_gate.req_handlers (type_hash p (p.type_of ans)) ≡ none
        → (member.node_type ≡ node_type_of routes c.route)
          × ((bytes : List ℕ) × (relayed.1.published
                ≡ relaying.published
                  ++ (remote_subject "node" member.node_type member.node_id, bytes) ∷ [])
              × Posts p at_there bytes sent m)
          × ((bytes : List ℕ) × Taken there gate.node_id bytes answering.published
                answered.1.published
              × PostsTo p at_gate.default_handler at_gate bytes answer ans)
          × (default_receiver (bind_sid a agents) (routed p answer ans) ≡ some a)
  gateway_round_trip lossless intn gate there routes c m ans member relaying answering at_gate
        at_there agents a fair keyed k k' chosen relayed answered fits fits' known known' unrouted =
      let session = agents.session a in
      let sent = client_common gate session member c in
      let answer = answer_common (routed p sent m) in
      let v = process_packet-ok p gate intn routes session c m relaying member k chosen relayed in
      let w = resp-ok p there (routed p sent m) ans answering k' answered in
      (
        chosen_type intn gate.discovery (node_type_of routes c.route) member fair keyed chosen,
        (
          v.bytes,
          v.taken.taken
              ∙ ap
                  (λ (x : Member).
                    relaying.published
                    ++ (remote_subject "node" x.node_type member.node_id, v.bytes) ∷ [])
                  (chosen_stored intn gate.discovery (node_type_of routes c.route) member
                    v.taken.member fair keyed chosen v.taken.stored),
          received-Sent p lossless at_there v k fits known,
        ),
        (
          w.bytes,
          w.taken,
          received-Sent p lossless at_gate w k' fits' known'
              ∙ ap
                  (λ o. (
                    ok tt,
                    record at_gate {
                      posted =
                          at_gate.posted
                          ++ (filed_or o at_gate.default_handler, (routed p answer ans, ans)) ∷ [];
                    },
                  ))
                  unrouted,
        ),
        bound agents a,
      )
