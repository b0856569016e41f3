-- ===== src/Tests/NodeTests.antt =====
-- Runs of a node that receives and sends: whom it calls with a message, and which nodes it sends to.
use mathlib.Core.List.{Memᴰ}
use xgame.Go.{err}
use xgame.Pb.{Member}
use xgame.Common.{
  ◌≡◌, ◌⊎◌, Bool, false, none, String, [], ◌∷◌, eq_iff, arith, ℕ, refl, true, Option, some,
  string_eq, ℕ_eq,
}
use xgame.Common.Map.{get, put, empty}
use xgame.Go.Crc32.{checksum_ieee, bytes_of}
use xgame.Packet.Registry.{on_unmarshal, hash, register_message}
use xgame.Packet.Codec.{read_message, read_limit, parse_head, read_bodies}
use xgame.Packet.Codec.Typed.{IsTypeSafe}
use xgame.Cluster.Handlers.{Callback, Receiver, listener, new_receiver, listen_msg, process}
use xgame.Cluster.Handlers.Typing.{Accepts, Step, Reach, handlers_get_their_type}
use xgame.Go.Errors.{cluster_rpc_client_is_stop, errorf}
use xgame.Go.Fmt.{text}
use xgame.Discovery.Refinement.{replay}
use xgame.Cluster.{publish, send_bytes, remote_subject}
use xgame.Cluster.Membership.{site_after, sends_to_members}
use xgame.Tests.RefinementTests.{calls}
use xgame.Tests.ClusterTests.{gate_site, sender}
use xgame.Tests.Samples.{Kind, kind_eq, login_request, Msg, proto, login}
use xgame.Tests.PacketTests.{two_types, two_types-IsConsistent, routed, frame}

abbrev login_listener : Callback Msg ℕ
login_listener = record {
  is_func = true;
  num_in = 2;
  takes_sender = true;
  message = login;
  function = 50;
}

abbrev takes : ℕ → Option Kind
takes f = some login_request

abbrev listening : Receiver Kind Msg ℕ
listening = (listen_msg proto login_listener (new_receiver two_types)).1

abbrev received_one : Receiver Kind Msg ℕ
received_one = (process proto frame listening).1

proto-IsTypeSafe : IsTypeSafe proto
proto-IsTypeSafe t body m h = ground arith

listening-Reach : Reach proto takes two_types received_one
listening-Reach =
    Reach.next (Reach.next Reach.init (Step.listen login_listener (record { own = refl })))
      (Step.receive frame)

login_posted : Memᴰ (listener 50, (routed, login)) received_one.posted
unfolding listen_msg process read_message read_limit parse_head read_bodies on_unmarshal get
    register_message empty put hash checksum_ieee bytes_of
login_posted = Memᴰ.head refl

handlers_get_their_type_example : Accepts proto takes (listener 50) login_request
handlers_get_their_type_example =
    handlers_get_their_type proto takes proto-IsTypeSafe two_types received_one
      two_types-IsConsistent listening-Reach (listener 50) routed login login_posted

-- SendBytes to game1 after the calls of the discovery in which it comes, goes and comes again.
named : ◌≡◌ {A = String} "game1" "" → ⊥
named h = ground (arith, eq_iff "game1" "", h)

sends_to_members_example :
    let send = send_bytes (site_after calls gate_site) "game1" (7 ∷ []) sender in
    ((◌≡◌ {A = Bool} true false) × (send ≡ (err cluster_rpc_client_is_stop, sender)))
    ⊎ ((◌≡◌ {A = Bool} true true)
        × (((replay "game1" calls none ≡ none)
              × (send ≡ (err (errorf "nodeId = %s not found." (text "game1" ∷ [])), sender)))
            ⊎ ((m : Member) × (replay "game1" calls none ≡ some m)
                × (m.node_id ≡ "game1")
                × (send
                    ≡ publish
                        (site_after calls gate_site)
                        (remote_subject "node" m.node_type "game1")
                        (7 ∷ [])
                        sender))))
sends_to_members_example = sends_to_members calls gate_site "game1" (7 ∷ []) sender named
