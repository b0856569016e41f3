-- ===== src/Tests/ClusterTests.antt =====
-- Runs of framework/pkg/cluster: a gate node sends a login request to a game node.
use xgame.Common.{
  ℕ, ◌<◌, ◌≡◌, ◌≢◌, ◌⊎◌, refl, true, false, Option, none, some, String, List, [], ◌∷◌, ◌++◌, map,
  string_eq, ℕ_eq, arith,
}
use xgame.Common.Map
use xgame.Common.Map.{get, put, empty}
use xgame.Go.{Result, ok, err, panic, Exec}
use xgame.Go.Crc32.{checksum_ieee, bytes_of}
use xgame.Go.Errors.{Error, errorf, cluster_rpc_client_is_stop}
use xgame.Go.Fmt.{text}
use xgame.Packet.Registry.{hash, type_hash, register_message, on_marshal, message_type}
use xgame.Packet.Codec.{pack_message}
use xgame.Packet.Codec.RoundTrip.{Fits}
use xgame.Discovery.{get_type, get_member, type_of_found, add_member}
use xgame.Cluster.{Site, Cluster, remote_subject, publish, publish_msg, pack}
use xgame.Go.Errors.{new}
use xgame.Go.Fmt.{sprintf}
use xgame.Cluster.Connection.{
  new_nats_conn, new_links, init_cluster, connect, stop_cluster, stop_subject, close_conn,
}
use xgame.Cluster.Callbacks.{
  Requester, new_requester, register_callback, unregister_callback, run_callback,
  run_callback_outcome, IsNumbered, new-IsNumbered, register_callback_fresh,
}
use xgame.Cluster.Handlers.{Receiver, new_receiver, process}
use xgame.Cluster.Sending.{Taken}
use xgame.Cluster.Handlers.Listening.{filed_or}
use xgame.Cluster.Delivery.{sent_common, delivered}
use xgame.Pb.{MsgCommon}
use xgame.Go.Errors.{packet_invalid_header}
use xgame.Packet.Codec.Malformed.{read_message-short}
use xgame.Cluster.Handlers.{receive}
use xgame.Cluster.InOrder.{Arrivals, none_left, message, noise, with_handler, posted_in_order}
use xgame.Cluster.Subject.{no_dot, remote_subject_injective}
use xgame.Tests.Samples.{common, Kind, kind_eq, login_request, Msg, proto, proto-IsLossless, login}
use xgame.Tests.PacketTests.{
  two_types-IsConsistent, request_packed, routed-Fits, request_known, routed, frame, one_type,
  two_types, one_type-IsConsistent,
}
use xgame.Tests.DiscoveryTests.{cluster}

-- The gate node, with both nodes as members and a NATS that takes everything.
abbrev pub gate_site : Site
gate_site = record {
  node_id = "gate1";
  running = true;
  discovery = cluster;
  refusal = λ subject bytes. none;
}

abbrev pub sender : Cluster Kind ℕ
sender = record { registry = one_type; requester = new_requester; published = [] }

abbrev pub receiver : Receiver Kind Msg ℕ
receiver = new_receiver two_types

request_sent : (publish_msg proto gate_site "game1" login sender).0 ≡ ok tt
unfolding publish_msg publish pack get_type get_member type_of_found add_member get put empty
    pack_message on_marshal register_message hash checksum_ieee bytes_of
request_sent = refl

request-Fits : Fits proto (sent_common proto gate_site "game1" login) login
request-Fits = record { common = λ body h. ground arith; message = λ body h. ground arith }

pub known_there : message_type two_types (type_hash proto login_request) ≡ some login_request
unfolding register_message hash checksum_ieee bytes_of get put empty
known_there = refl

-- The callbacks of the tests return, and change nothing.
abbrev pub call : ℕ → Msg → Exec (Requester ℕ) (Unit {0})
call h m r = (ok tt, r)

abbrev pub waiting : Requester ℕ
waiting = (register_callback (some 100) new_requester).1

run_callback_outcome_example :
    let ran = run_callback call 1 login waiting in
    ((h : ℕ) × (r' : Requester ℕ) × (get waiting.handlers 1 ≡ some h)
      × (call h login waiting ≡ (ok tt, r'))
      × (ran.0 ≡ ok tt)
      × (get ran.1.handlers 1 ≡ none)
      × ((other : ℕ) → other ≢ 1 → get ran.1.handlers other ≡ get r'.handlers other))
    ⊎ ((h : ℕ) × (get waiting.handlers 1 ≡ some h)
        × ((call h login waiting).0 ≢ ok tt)
        × (ran ≡ call h login waiting))
    ⊎ ((get waiting.handlers 1 ≡ none)
        × (ran ≡ (panic "invalid memory address or nil pointer dereference", waiting)))
run_callback_outcome_example = run_callback_outcome call 1 login waiting

-- A response that comes twice.
second_response :
    (run_callback call 1 login (run_callback call 1 login waiting).1).0
    ≡ panic "invalid memory address or nil pointer dereference"
unfolding run_callback unregister_callback register_callback get put empty Map.remove
second_response = refl

register_callback_fresh_example :
    let (mid, r') = register_callback {H = ℕ} (some 100) new_requester in
    (0 < mid)
    × (get (new_requester {H = ℕ}).handlers mid ≡ none)
    × (get r'.handlers mid ≡ some 100)
    × ((other : ℕ)
        → other ≢ mid
        → get r'.handlers other ≡ get (new_requester {H = ℕ}).handlers other)
    × IsNumbered r'
register_callback_fresh_example =
    register_callback_fresh 100 new_requester new-IsNumbered (omega arith)

abbrev Outcome : Result (Unit {0}) × Cluster Kind ℕ → Type 0
Outcome out =
    ((true ≡ false) × (out ≡ (err cluster_rpc_client_is_stop, sender)))
    ⊎ ((true ≡ true) × (out ≡ (err (errorf "nodeId = %s not found." (text "game1" ∷ [])), sender)))
    ⊎ ((t : String) × (true ≡ true)
        × (get_type cluster "game1" ≡ ok t)
        × (((e : Error) × (none ≡ some e) × (out ≡ (err e, sender)))
            ⊎ ((◌≡◌ {A = Option Error} none none)
                × (out ≡ (
                  ok tt,
                  record sender {
                    published = sender.published ++ (remote_subject "node" t "game1", 1 ∷ []) ∷ [];
                  },
                )))))

delivered_example :
    (bytes : List ℕ) × Taken gate_site "game1" bytes []
      (publish_msg proto gate_site "game1" login sender).1.published
    × (process proto bytes receiver ≡ (
      ok tt,
      record receiver {
        posted =
            []
            ++ (
              filed_or
                  (get (receiver).req_handlers (type_hash proto login_request))
                  (receiver).default_handler,
              (sent_common proto gate_site "game1" login, login),
            )
              ∷ [];
      },
    ))
delivered_example =
    delivered proto proto-IsLossless gate_site "game1" login sender receiver one_type-IsConsistent
      request_sent request-Fits known_there

-- A cut off header between two logins.
abbrev incoming : List (List ℕ)
incoming = frame ∷ (3 ∷ 0 ∷ []) ∷ frame ∷ []

abbrev logins : List (MsgCommon × Msg)
logins = (routed, login) ∷ (routed, login) ∷ []

incoming-Arrivals : Arrivals proto two_types incoming logins
incoming-Arrivals =
    message two_types common routed login frame two_types-IsConsistent request_packed routed-Fits
      request_known
      (noise (3 ∷ 0 ∷ []) packet_invalid_header
        (read_message-short proto two_types (3 ∷ 0 ∷ []) none (omega arith))
        (message two_types common routed login frame two_types-IsConsistent request_packed
          routed-Fits request_known none_left))

posted_in_order_example :
    receive proto incoming receiver
    ≡ (ok tt, record receiver { posted = [] ++ map (with_handler receiver) logins })
posted_in_order_example =
    posted_in_order proto proto-IsLossless receiver incoming logins incoming-Arrivals

dotless : no_dot "gate" ≡ true
unfolding no_dot
dotless = refl

remote_subject_injective_example :
    (◌≡◌ {A = String} "gate" "gate") × (◌≡◌ {A = String} "gate1" "gate1")
remote_subject_injective_example =
    remote_subject_injective "node" "gate" "gate1" "gate" "gate1" dotless dotless refl

-- A node's life: it subscribes to its own subject, and Stop takes the subscription and the connection back.
cluster_life :
    let l = new_links "nats://127.0.0.1:4222" "" "gate" "gate1" in
    (l.nats_sub.subject ≡ "cherry.node.remote.gate.gate1")
    × (init_cluster (some (new "refused") ∷ none ∷ []) none l
        ≡ some (record l {
          nats_conn = record l.nats_conn { running = true };
          nats_sub = record l.nats_sub { subscribed = true };
        }))
    × ((stop_cluster
          (record l { nats_conn = record l.nats_conn { running = true } })).1.nats_conn.running
        ≡ false)
unfolding new_links new_nats_conn remote_subject sprintf init_cluster connect stop_cluster
    stop_subject close_conn
cluster_life = (refl, refl, refl)
