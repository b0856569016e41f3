-- ===== src/Xagent/Agent/Reading/Relay.antt =====
-- What readChan of agent.go hands to NATS for the frames of a client.
use xgame.Common.{
  ℕ, ℕ_eq, string_eq, ◌≡◌, ◌≢◌, ◌⊎◌, refl, sym, ◌∙◌, subst, inl, inr, some, Option-cases, String,
  List, [], ◌∷◌, ◌++◌, Eq,
}
use xgame.Go.{Result, ok, err, panic, Exec, continue}
use xgame.Go.Errors.{Error}
use xgame.Pb.{MsgCommon, Session, Member, Proto}
use xgame.Packet.Registry.{Registry, type_hash, message_type, on_marshal}
use xgame.Packet.Registry.Consistency.{IsConsistent}
use xgame.Packet.Registry.Outcomes.{on_marshal-known}
use xgame.Packet.Codec.{pack_message}
use xgame.Discovery.{random, get_type}
use xgame.Cluster.{Site, Cluster, remote_subject, send_bytes, pack}
use xgame.Cluster.Sending.{send_bytes_outcome}
use xgame.Xagent.Route.{RouteMgr, node_type_of}
use xgame.Xagent.Agent.{process_packet, packet_for}
use xgame.Xagent.Agent.Gateway.{client_common}

abbrev pub NoPanic : {A : Type 0} → Result A → Type 0
NoPanic r = (x : String) → r ≢ panic x

-- Marshalling does not panic.
pub record IsCalm {T M : Type 0} (p : Proto T M) : Type 0 where
  pub message : (m : M) (x : String) → p.marshal m ≢ panic x
  pub common : (c : MsgCommon) (x : String) → p.marshal_common c ≢ panic x

continue-keeps_state :
    {S A B : Type 0} (r : Result A) (f : A → Exec S B) (s : S)
    → ((a : A) → (f a s).1 ≡ s)
    → (continue r f s).1 ≡ s
continue-keeps_state (ok a) f s k = k a
continue-keeps_state (err x) f s k = refl
continue-keeps_state (panic x) f s k = refl

continue-calm :
    {S A B : Type 0} (r : Result A) (f : A → Exec S B) (s : S)
    → NoPanic r
    → ((a : A) → NoPanic (f a s).0)
    → NoPanic (continue r f s).0
continue-calm (ok a) f s calm k = k a
continue-calm (err e) f s calm k = λ x h. cc
continue-calm (panic y) f s calm k = λ x h. absurd (calm y refl)

module _ {T M : Type 0} ⦃e : Eq T⦄ (p : Proto T M) (quiet : IsCalm p) where
  -- PackMessage of a registered type leaves the registry as it is and does not panic.
  pack_message-known :
      (c : MsgCommon) (m : M) (r : Registry T)
      → IsConsistent p r
      → message_type r (type_hash p (p.type_of m)) ≡ some (p.type_of m)
      → ((pack_message p c m r).1 ≡ r) × NoPanic (pack_message p c m r).0
  unfolding pack_message
  pack_message-known c m r k known =
      let (kept, calm) = on_marshal-known p m r _ (k.forth _ _ known) (quiet.message m) in
      (
        continue-keeps_state (on_marshal p m r).0 _ (on_marshal p m r).1 (λ routed.
              continue-keeps_state (p.marshal_common (record c { route = routed.0 })) _ _
                (λ raw. refl))
            ∙ kept,
        continue-calm (on_marshal p m r).0 _ (on_marshal p m r).1 calm (λ routed.
            continue-calm (p.marshal_common (record c { route = routed.0 })) _ _ (quiet.common _)
              (λ raw x h. cc)),
      )

module _ {T M : Type 0} ⦃e : Eq T⦄ (p : Proto T M) where
  -- What processPacket hands to NATS for a message: the frame of the message with both node ids and the client's user
  -- and session, under the subject of a member that serves its route.
  pub record Relayed (site : Site) (intn : ℕ → ℕ) (routes : RouteMgr) (session : Session)
      (reg : Registry T) (c : MsgCommon) (m : M) (subject : String) (bytes : List ℕ) : Type 0 where
    pub member : Member
    pub node_type : String
    pub sent : MsgCommon
    pub chosen : random intn site.discovery (node_type_of routes c.route) ≡ some member
    pub known : get_type site.discovery member.node_id ≡ ok node_type
    pub packed : (pack_message p (client_common site session member c) m reg).0 ≡ ok (sent, bytes)
    pub addressed : subject ≡ remote_subject "node" node_type member.node_id

module _ {T M H : Type 0} ⦃e : Eq T⦄ (p : Proto T M) where
  pub record Outcome (site : Site) (intn : ℕ → ℕ) (routes : RouteMgr) (session : Session)
      (c : MsgCommon) (m : M) (s : Cluster T H) (out : Result (Unit {0}) × Cluster T H)
      : Type 0 where
    pub calm : NoPanic out.0
    pub registry_kept : out.1.registry ≡ s.registry
    pub result :
        ((x : Error) × (out.0 ≡ err x) × (out.1.published ≡ s.published))
        ⊎ ((subject : String) × (bytes : List ℕ) × Relayed p site intn routes session s.registry c m
              subject bytes
            × (out.1.published ≡ s.published ++ (subject, bytes) ∷ []))

  failed-Outcome :
      (site : Site) (intn : ℕ → ℕ) (routes : RouteMgr) (session : Session) (c : MsgCommon) (m : M)
      (s s' : Cluster T H) (x : Error) (out : Result (Unit {0}) × Cluster T H)
      → s'.registry ≡ s.registry
      → s'.published ≡ s.published
      → out ≡ (err x, s')
      → Outcome site intn routes session c m s out
  failed-Outcome site intn routes session c m s s' x out same same' q =
      subst (Outcome site intn routes session c m s) (sym q)
        (record { calm = λ y h. cc; registry_kept = same; result = inl (x, refl, same') })

  sent-Outcome :
      (site : Site) (intn : ℕ → ℕ) (routes : RouteMgr) (session : Session) (c : MsgCommon) (m : M)
      (s : Cluster T H) (member : Member) (reg : Registry T) (r : Result (MsgCommon × List ℕ))
      → random intn site.discovery (node_type_of routes c.route) ≡ some member
      → (pack_message p (client_common site session member c) m s.registry).0 ≡ r
      → reg ≡ s.registry
      → NoPanic r
      → Outcome site intn routes session c m s (
          continue r
            (λ packed. send_bytes site member.node_id packed.1)
            (record s { registry = reg }))
  sent-Outcome site intn routes session c m s member reg (err x) chosen q same calm =
      failed-Outcome site intn routes session c m s (record s { registry = reg }) x _ same refl refl
  sent-Outcome site intn routes session c m s member reg (panic x) chosen q same calm =
      absurd (calm x refl)
  sent-Outcome site intn routes session c m s member reg (ok (sent, bytes)) chosen q same calm =
      let s1 : Cluster T H = record s { registry = reg } in
      elim (send_bytes_outcome site member.node_id bytes s1) [
        | inl (_, stopped) ↦ failed-Outcome site intn routes session c m s s1 _ _ same refl stopped
        | inr (inl (_, unknown)) ↦
            failed-Outcome site intn routes session c m s s1 _ _ same refl unknown
        | inr (inr (t, _, known, inl (x, _, refused))) ↦
            failed-Outcome site intn routes session c m s s1 x _ same refl refused
        | inr (inr (t, _, known, inr (_, done))) ↦
            subst (Outcome site intn routes session c m s) (sym done) (record {
              calm = λ y h. cc;
              registry_kept = same;
              result = inr (
                remote_subject "node" t member.node_id,
                bytes,
                record {
                  member = member;
                  node_type = t;
                  sent = sent;
                  chosen = chosen;
                  known = known;
                  packed = q;
                  addressed = refl;
                },
                refl,
              );
            })
      ]

module _ {T M H : Type 0} ⦃e : Eq T⦄ (p : Proto T M) (quiet : IsCalm p) where
  pub process_packet-Outcome :
      (site : Site) (intn : ℕ → ℕ) (routes : RouteMgr) (session : Session) (c : MsgCommon) (m : M)
      (s : Cluster T H)
      → IsConsistent p s.registry
      → message_type s.registry (type_hash p (p.type_of m)) ≡ some (p.type_of m)
      → Outcome p site intn routes session c m s (process_packet p site intn routes session c m s)
  unfolding process_packet
  process_packet-Outcome site intn routes session c m s k known =
      elim (Option-cases (random intn site.discovery (node_type_of routes c.route))) [
        | inl lost ↦
            rw (lost, packet_for)
              (failed-Outcome p site intn routes session c m s s _ _ refl refl refl)
        | inr (member, chosen) ↦
            let (kept, calm) =
              pack_message-known p quiet (client_common site session member c) m s.registry k
                known in
            rw (chosen, packet_for)
              (unfold pack in
                sent-Outcome p site intn routes session c m s member
                  (pack_message p (client_common site session member c) m s.registry).1
                  (pack_message p (client_common site session member c) m s.registry).0 chosen refl
                  kept calm)
      ]
