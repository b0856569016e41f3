-- ===== src/Tests/RoundTripTests.antt =====
-- A login request and its answer: between two nodes, and between a client and a node behind the gate.
use xgame.Common.{ℕ, ◌≡◌, ◌≢◌, refl, none, some, List, [], ◌∷◌, ◌++◌, string_eq, ℕ_eq, arith}
use xgame.Common.Map
use xgame.Common.Map.{get, put, empty}
use xgame.Go.{ok}
use xgame.Go.Crc32.{checksum_ieee, bytes_of}
use xgame.Pb.{MsgCommon, Session, no_common}
use xgame.Packet.Registry.{hash, type_hash, register_message, on_marshal, message_type}
use xgame.Packet.Codec.{pack_message}
use xgame.Packet.Codec.RoundTrip.{Fits}
use xgame.Discovery.{get_type, get_member, type_of_found, add_member}
use xgame.Cluster.{Site, Cluster, remote_subject, publish, send_bytes, pack, request_async, resp}
use xgame.Cluster.Callbacks.{new_requester, register_callback, run_callback}
use xgame.Cluster.Handlers.{Handler, Receiver, file, register_response}
use xgame.Cluster.Sending.{Taken}
use xgame.Cluster.Rpc.{routed, Posts, PostsTo, request_common, answer_common, rpc_round_trip}
use xgame.Discovery.{random, list_by_type}
use xgame.Util.{string_in}
use xgame.Xagent.Agents.{Agents, new_agents, bind_sid, default_receiver}
use xgame.Xagent.Route.{RouteMgr, new_route_mgr, add_route, node_type_of}
use xgame.Xagent.Agent.{process_packet}
use xgame.Xagent.Agent.Gateway.{client_common, gateway_round_trip}
use xgame.Tests.Samples.{
  Kind, Msg, kind_eq, login_response, proto, proto-IsLossless, login, response,
}
use xgame.Tests.PacketTests.{two_types, one_type-IsConsistent, two_types-IsConsistent, request_id}
use xgame.Tests.DiscoveryTests.{cluster, cluster-IsKeyed, game}
use xgame.Tests.ClusterTests.{gate_site, sender, receiver, call, waiting, known_there}

abbrev game_site : Site
game_site = record gate_site { node_id = "game1" }

abbrev pub server : Cluster Kind ℕ
server = record { registry = two_types; requester = new_requester; published = [] }

abbrev asked_common : MsgCommon
asked_common = routed proto (request_common gate_site "game1" 1) login

asked : (request_async proto gate_site "game1" login (some 100) sender).0 ≡ ok tt
unfolding request_async publish send_bytes pack register_callback get_type get_member type_of_found
    add_member get put empty pack_message on_marshal register_message hash checksum_ieee bytes_of
asked = refl

answered : (resp proto game_site asked_common response server).0 ≡ ok tt
unfolding resp publish send_bytes pack get_type get_member type_of_found add_member get put empty
    pack_message on_marshal register_message hash checksum_ieee bytes_of
answered = refl

asked-Fits : Fits proto asked_common login
asked-Fits = record { common = λ body h. ground arith; message = λ body h. ground arith }

answered-Fits : Fits proto (routed proto (answer_common asked_common) response) response
answered-Fits = record { common = λ body h. ground arith; message = λ body h. ground arith }

known_here : message_type two_types (type_hash proto login_response) ≡ some login_response
unfolding register_message hash checksum_ieee bytes_of get put empty
known_here = refl

waits : get waiting.handlers 1 ≡ some 100
unfolding register_callback get put empty
waits = refl

-- The node that asks has registered the handler that runs callbacks for the type of the answer.
abbrev listening : Receiver Kind Msg ℕ
listening = (register_response proto response receiver).1

listens : (register_response proto response receiver).0 ≡ ok tt
unfolding register_response file register_message hash checksum_ieee bytes_of get put empty
listens = refl

rpc_round_trip_example :
    let asks = request_async proto gate_site "game1" login (some 100) sender in
    let ran = run_callback call 1 response waiting in
    ((bytes : List ℕ) × Taken gate_site "game1" bytes [] asks.1.published
      × Posts proto receiver bytes (request_common gate_site "game1" 1) login)
    × ((bytes : List ℕ) × Taken game_site "gate1" bytes []
          (resp proto game_site asked_common response server).1.published
        × PostsTo proto Handler.response listening bytes (answer_common asked_common) response)
    × (get asks.1.requester.handlers 1 ≡ some 100)
    × (ran.0 ≡ ok tt)
    × (get ran.1.handlers 1 ≡ none)
    × ((other : ℕ) → other ≢ 1 → get ran.1.handlers other ≡ get waiting.handlers other)
unfolding register_callback
rpc_round_trip_example =
    rpc_round_trip proto proto-IsLossless gate_site game_site "game1" login response response 100
      sender server receiver receiver call waiting waiting one_type-IsConsistent
      two_types-IsConsistent two_types-IsConsistent asked answered listens refl asked-Fits
      answered-Fits known_there waits refl

-- A client's login. The gate serves it by the nodes of type "game".
abbrev pub routes : RouteMgr
routes = (add_route "climsg.CReqLogin" "game" new_route_mgr).1

abbrev pub session : Session
session = record { sid = "sid1"; uid = 42; ip = "127.0.0.1" }

abbrev agents : Agents
agents = new_agents (λ a. session)

abbrev from_client : MsgCommon
from_client = record no_common { route = request_id }

abbrev pub intn : ℕ → ℕ
intn k = 0

abbrev client_routed : MsgCommon
client_routed = routed proto (client_common gate_site session game from_client) login

chosen : random intn cluster (node_type_of routes request_id) ≡ some game
unfolding random list_by_type Map.entries string_in add_member add_route node_type_of get put empty
    hash checksum_ieee bytes_of
chosen = refl

relayed : (process_packet proto gate_site intn routes session from_client login sender).0 ≡ ok tt
unfolding process_packet random list_by_type Map.entries string_in add_route node_type_of publish
    send_bytes pack get_type get_member type_of_found add_member get put empty pack_message
    on_marshal register_message hash checksum_ieee bytes_of
relayed = refl

client_answered : (resp proto game_site client_routed response server).0 ≡ ok tt
unfolding resp publish send_bytes pack get_type get_member type_of_found add_member get put empty
    pack_message on_marshal register_message hash checksum_ieee bytes_of
client_answered = refl

relayed-Fits : Fits proto client_routed login
relayed-Fits = record { common = λ body h. ground arith; message = λ body h. ground arith }

client_answered-Fits : Fits proto (routed proto (answer_common client_routed) response) response
client_answered-Fits = record { common = λ body h. ground arith; message = λ body h. ground arith }

no_listener : get (receiver).req_handlers (type_hash proto login_response) ≡ none
unfolding get empty
no_listener = refl

gateway_round_trip_example :
    (game.node_type ≡ node_type_of routes request_id)
    × ((bytes : List ℕ) × ((process_packet proto gate_site intn routes session from_client login
            sender).1.published
          ≡ [] ++ (remote_subject "node" game.node_type "game1", bytes) ∷ [])
        × Posts proto receiver bytes (client_common gate_site session game from_client) login)
    × ((bytes : List ℕ) × Taken game_site "gate1" bytes []
          (resp proto game_site client_routed response server).1.published
        × PostsTo proto receiver.default_handler receiver bytes
            (answer_common client_routed)
            response)
    × (default_receiver (bind_sid 0 agents) (routed proto (answer_common client_routed) response)
        ≡ some 0)
gateway_round_trip_example =
    gateway_round_trip proto proto-IsLossless intn gate_site game_site routes from_client login
      response game sender server receiver receiver agents 0 (λ k h. h) cluster-IsKeyed
      one_type-IsConsistent two_types-IsConsistent chosen relayed client_answered relayed-Fits
      client_answered-Fits known_there known_here no_listener
