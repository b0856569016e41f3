-- ===== src/Cluster/Sending.antt =====
-- What SendBytes and PublishMsg of framework/pkg/cluster/cluster.go hand to NATS, and when.
use xgame.Common.{
  ℕ, ◌≡◌, refl, sym, ap, ◌∙◌, ◌⊎◌, inl, inr, true, false, Bool-cases, none, some, Option-cases,
  arith, string_eq, String, List, [], ◌∷◌, ◌++◌, Eq,
}
use xgame.Go.{Result, ok, err, continue-ok, ◌>>=◌}
use xgame.Go.Errors.{Error, cluster_rpc_client_is_stop, errorf}
use xgame.Go.Fmt.{text}
use xgame.Common.Map
use xgame.Pb.{Member, MsgCommon, Proto, no_common}
use xgame.Packet.Codec.{pack_message}
use xgame.Discovery.{Discovery, get_type, get_member, type_of_found}
use xgame.Cluster.{
  Site, Cluster, publish, published_or, send_bytes, publish_msg, pack, remote_subject,
  with_registry,
}

type_cases :
    (r : Result String) (site : Site) (node_id : String)
    → get_type site.discovery node_id ≡ r
    → ((t : String) × (r ≡ ok t)) ⊎ (r ≡ err (errorf "nodeId = %s not found." (text node_id ∷ [])))
unfolding get_type
type_cases r site node_id h = elim (Option-cases (get_member site.discovery node_id)) [
  | inl absent ↦ inr (sym h ∙ rw (absent, type_of_found) refl)
  | inr (m, known) ↦ inl (m.node_type, sym h ∙ rw (known, type_of_found) refl)
]

-- NATS has taken these bytes under the subject of a node, with the type of the member that has its id.
pub record Taken (site : Site) (node_id : String) (bytes : List ℕ)
    (before after : List (String × List ℕ)) : Type 0 where
  pub member : Member
  pub stored : Map.get site.discovery.member_map node_id ≡ some member
  pub taken : after ≡ before ++ (remote_subject "node" member.node_type node_id, bytes) ∷ []

found_of :
    (n : Discovery) (id : String) (m : Member)
    → get_member n id ≡ some m
    → Map.get n.member_map id ≡ some m
unfolding get_member
found_of n id m h = ground (arith, h)

-- GetType tells the type of a member.
pub get_type-ok :
    (n : Discovery) (id t : String)
    → get_type n id ≡ ok t
    → (m : Member) × (Map.get n.member_map id ≡ some m) × (m.node_type ≡ t)
unfolding get_type
get_type-ok n id t h = elim (Option-cases (get_member n id)) [
  | inl absent ↦ cc (rw (absent, type_of_found) at h)
  | inr (m, known) ↦ (m, found_of n id m known, ground (arith, rw (known, type_of_found) at h))
]

pub taken_under :
    (site : Site) (node_id t : String) (bytes : List ℕ) (before after : List (String × List ℕ))
    → get_type site.discovery node_id ≡ ok t
    → after ≡ before ++ (remote_subject "node" t node_id, bytes) ∷ []
    → Taken site node_id bytes before after
taken_under site node_id t bytes before after known taken =
    let (m, stored, same) = get_type-ok site.discovery node_id t known in
    record {
      member = m;
      stored = stored;
      taken = taken ∙ ap (λ x. before ++ (remote_subject "node" x node_id, bytes) ∷ []) (sym same);
    }

-- The MsgCommon that PublishMsg starts from.
abbrev pub common_from : Site → String → MsgCommon
common_from site node_id = record no_common { source_id = site.node_id; target_id = node_id }

module _ {T H : Type 0} where
  publish_outcome :
      (site : Site) (subject : String) (bytes : List ℕ) (s : Cluster T H)
      → ((e : Error) × (site.refusal subject bytes ≡ some e)
          × (publish site subject bytes s ≡ (err e, s)))
        ⊎ ((site.refusal subject bytes ≡ none)
            × (publish site subject bytes s
                ≡ (ok tt, record s { published = s.published ++ (subject, bytes) ∷ [] })))
  unfolding publish
  publish_outcome site subject bytes s = elim (Option-cases (site.refusal subject bytes)) [
    | inl taken ↦ inr (taken, rw (taken, published_or) refl)
    | inr (e, refused) ↦ inl (e, refused, rw (refused, published_or) refl)
  ]

  -- What stands behind the calls that return no error.
  pub publish-ok :
      (site : Site) (subject : String) (bytes : List ℕ) (s : Cluster T H)
      → (publish site subject bytes s).0 ≡ ok tt
      → (publish site subject bytes s).1
        ≡ record s { published = s.published ++ (subject, bytes) ∷ [] }
  publish-ok site subject bytes s h = elim (publish_outcome site subject bytes s) [
    | inl (e, _, refused) ↦ cc (h, refused)
    | inr (_, done) ↦ ap (λ x. x.1) done
  ]

  -- SendBytes hands the bytes to NATS under the subject of the node's type and id, when the application runs,
  -- the node is a member, and NATS takes them; else it changes nothing, and returns the error for a stopped
  -- client, the error for an unknown node, or that of NATS.
  pub send_bytes_outcome :
      (site : Site) (node_id : String) (bytes : List ℕ) (s : Cluster T H)
      → ((site.running ≡ false)
          × (send_bytes site node_id bytes s ≡ (err cluster_rpc_client_is_stop, s)))
        ⊎ ((site.running ≡ true)
            × (send_bytes site node_id bytes s
                ≡ (err (errorf "nodeId = %s not found." (text node_id ∷ [])), s)))
        ⊎ ((t : String) × (site.running ≡ true)
            × (get_type site.discovery node_id ≡ ok t)
            × (((e : Error) × (site.refusal (remote_subject "node" t node_id) bytes ≡ some e)
                  × (send_bytes site node_id bytes s ≡ (err e, s)))
                ⊎ ((site.refusal (remote_subject "node" t node_id) bytes ≡ none)
                    × (send_bytes site node_id bytes s ≡ (
                      ok tt,
                      record s {
                        published = s.published ++ (remote_subject "node" t node_id, bytes) ∷ [];
                      },
                    )))))
  unfolding send_bytes
  send_bytes_outcome site node_id bytes s = elim (Bool-cases site.running) [
    | inr stopped ↦ inl (stopped, simp stopped)
    | inl running ↦ elim (type_cases (get_type site.discovery node_id) site node_id refl) [
      | inr unknown ↦ inr (inl (running, simp (running, unknown)))
      | inl (t, known) ↦ inr (
          inr (
            t,
            running,
            known,
            simp (running, known) (publish_outcome site (remote_subject "node" t node_id) bytes s),
          ))
    ]
  ]

module _ {T M H : Type 0} ⦃e : Eq T⦄ (p : Proto T M) where
  -- What PublishMsg has done when it returns no error.
  pub record Published (site : Site) (node_id : String) (m : M) (s s' : Cluster T H) : Type 0 where
    pub node_type : String
    pub common : MsgCommon
    pub bytes : List ℕ
    pub known : get_type site.discovery node_id ≡ ok node_type
    pub packed : (pack_message p (common_from site node_id) m s.registry).0 ≡ ok (common, bytes)
    pub taken : s'.published ≡ s.published ++ (remote_subject "node" node_type node_id, bytes) ∷ []

  pub publish_msg-ok :
      (site : Site) (node_id : String) (m : M) (s : Cluster T H)
      → (publish_msg p site node_id m s).0 ≡ ok tt
      → Published site node_id m s (publish_msg p site node_id m s).1
  unfolding publish_msg pack with_registry
  publish_msg-ok site node_id m s h = elim (Bool-cases site.running) [
    | inr stopped ↦ cc (stopped, h)
    | inl running ↦
        let (t, known, step, h1) =
          continue-ok (get_type site.discovery node_id)
            (λ (t : String). pack p (common_from site node_id) m >>= λ packed.
              publish site (remote_subject "node" t node_id) packed.1)
            s (simp running at h) in
        let (out, packed, step', h2) =
          continue-ok (pack p (common_from site node_id) m s).0
            (λ packed. publish site (remote_subject "node" t node_id) packed.1)
            (pack p (common_from site node_id) m s).1 h1 in
        simp running (record {
          node_type = t;
          common = out.0;
          bytes = out.1;
          known = known;
          packed = packed;
          taken =
              ap (λ x. x.1.published) (step ∙ step')
              ∙ ap (λ (x : Cluster T H). x.published) (publish-ok site _ out.1 _ h2);
        })
  ]
