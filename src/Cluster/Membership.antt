-- ===== src/Cluster/Membership.antt =====
-- SendBytes of framework/pkg/cluster/cluster.go over the members that framework/pkg/discovery/discovery.go keeps.
use xgame.Common.{
  ℕ, ◌≡◌, ◌≢◌, ◌⊎◌, refl, ◌∙◌, inl, inr, true, false, Bool-cases, none, some, Option-cases, String,
  List, [], ◌∷◌, string_eq, eq_iff, arith,
}
use xgame.Common.Map
use xgame.Go.{err}
use xgame.Go.Errors.{cluster_rpc_client_is_stop, errorf}
use xgame.Go.Fmt.{text}
use xgame.Pb.{Member}
use xgame.Discovery.{Discovery, pre_init, get_type, get_member, type_of_found}
use xgame.Discovery.Refinement.{Op, run, replay, run_refines}
use xgame.Cluster.{Site, Cluster, publish, send_bytes, remote_subject}

-- A site after calls of the discovery.
abbrev pub site_after : List Op → Site → Site
site_after xs site = record site { discovery = run xs pre_init }

found_member : (n : Discovery) (id : String) → id ≢ "" → get_member n id ≡ Map.get n.member_map id
unfolding get_member
found_member n id named = ground (arith, eq_iff id "")

module _ {T H : Type 0} where
  -- SendBytes to a node with a name, after PreInit and any calls of AddMember, RemoveMember, OnAddMember and
  -- OnRemoveMember: on an application that does not run it returns the error for this; when the node was not added
  -- since it was last removed, it returns the error for an unknown node; both change nothing. Else it hands the bytes to
  -- NATS under the subject of the node, with the type of the member that was the first to be added since then.
  pub sends_to_members :
      (xs : List Op) (site : Site) (node_id : String) (bytes : List ℕ) (s : Cluster T H)
      → node_id ≢ ""
      → let send = send_bytes (site_after xs site) node_id bytes s in
        ((site.running ≡ false) × (send ≡ (err cluster_rpc_client_is_stop, s)))
        ⊎ ((site.running ≡ true)
            × (((replay node_id xs none ≡ none)
                  × (send ≡ (err (errorf "nodeId = %s not found." (text node_id ∷ [])), s)))
                ⊎ ((m : Member) × (replay node_id xs none ≡ some m)
                    × (m.node_id ≡ node_id)
                    × (send
                        ≡ publish
                            (site_after xs site)
                            (remote_subject "node" m.node_type node_id)
                            bytes
                            s))))
  unfolding send_bytes get_type
  sends_to_members xs site node_id bytes s named =
      let (keyed, same) = run_refines xs node_id in
      let known : get_member (run xs pre_init) node_id ≡ replay node_id xs none =
        found_member (run xs pre_init) node_id named ∙ same in
      elim (Bool-cases site.running) [
        | inr stopped ↦ inl (stopped, simp stopped refl)
        | inl running ↦ inr (
          running,
          elim (Option-cases (replay node_id xs none)) [
            | inl absent ↦ inl (absent, simp (running, known ∙ absent, type_of_found) refl)
            | inr (m, there) ↦ inr (
              m,
              there,
              keyed.own_id node_id m (same ∙ there),
              simp (running, known ∙ there, type_of_found) refl,
            )
          ],
        )
      ]
