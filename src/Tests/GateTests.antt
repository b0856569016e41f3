-- ===== src/Tests/GateTests.antt =====
-- Runs of gate.Run and of a login, on the sample messages.
use xgame.Common.{
  arith, ℕ, ◌≡◌, ◌≢◌, ◌⊎◌, refl, true, false, none, some, List, [], ◌∷◌, string_eq, ℕ_eq,
}
use xgame.Common.Map
use xgame.Common.Map.{get, put, empty}
use xgame.Go.{ok, err, panic, pure}
use xgame.Go.Crc32.{checksum_ieee, bytes_of}
use xgame.Go.Errors.{errorf}
use xgame.Go.Fmt.{text}
use xgame.Pb.{MsgCommon, no_common}
use xgame.Packet.Registry.{hash, type_hash, register_message, on_marshal}
use xgame.Packet.Codec.{pack_message}
use xgame.Packet.Codec.RoundTrip.{Fits}
use xgame.Cluster.{resp, Cluster, publish, send_bytes, pack}
use xgame.Cluster.Callbacks.{new_requester}
use xgame.Cluster.Handlers.{process, set_default_handler}
use xgame.Cluster.Sending.{Taken}
use xgame.Cluster.Rpc.{routed, answer_common}
use xgame.Discovery.{add_member, get_type, get_member, type_of_found}
use xgame.Application.{Application, Component, find, startup}
use xgame.Application.Node.{base, Services, Node, new_app_node}
use xgame.Profile.{NodeCfg, find_node}
use xgame.Xagent.Agents.{Agents, new_agents}
use xgame.Xagent.Agent.{process_packet}
use xgame.Xagent.Agent.Gateway.{client_common}
use xgame.Gate.{Climsg, Gate, World, login_answer, set_up, new_gate, on_creq_login, run}
use xgame.Gate.Login.{ServesLogins, run_outcome}
use xgame.Gate.Lost.{new_gate-IsNew, first_answer_lost}
use xgame.Tests.Samples.{
  Kind, kind_eq, login_request, login_response, Msg, proto, proto-IsLossless, login,
}
use xgame.Tests.PacketTests.{one_type, one_type-IsConsistent, request_id}
use xgame.Tests.DiscoveryTests.{gate}
use xgame.Tests.ClusterTests.{gate_site}
use xgame.Tests.ApplicationTests.{conf}
use xgame.Tests.RoundTripTests.{session, intn}

-- A gate node that answers a login itself.
abbrev pb : Climsg Msg
pb = record {
  creq_login = login;
  account = λ m. "bob";
  sresp_login = λ r. record { kind = login_response; body = r.code ∷ r.uid ∷ [] };
}

abbrev agents_only : Component ℕ
agents_only = base "agents_manager"

abbrev app : Application ℕ
app = record {
  running = 0;
  components = agents_only ∷ [];
  on_shutdown_fn = [];
  connectors = [];
  worker_start = pure tt;
}

has_agents : find app "agents_manager" ≡ some agents_only
unfolding find
has_agents = refl

abbrev gate_node : Gate Kind Msg ℕ
gate_node = (set_up proto pb app 50 new_gate).1

abbrev relaying : Cluster Kind ℕ
relaying = record { registry = one_type; requester = new_requester; published = [] }

abbrev from_client : MsgCommon
from_client = record no_common { route = request_id }

abbrev sent : MsgCommon
sent = client_common gate_site session gate from_client

abbrev answer : MsgCommon
answer = answer_common (routed proto sent login)

abbrev answer_message : Msg
answer_message = pb.sresp_login (login_answer (pb.account login))

abbrev relayed_node : Cluster Kind ℕ
relayed_node =
    (process_packet proto gate_site intn gate_node.routes session from_client login relaying).1

answer-Fits : Fits proto (routed proto answer answer_message) answer_message
answer-Fits = record { common = λ body h. ground arith; message = λ body h. ground arith }

abbrev agents : Agents
agents = new_agents (λ a. session)

-- The same login, relayed by gate1 and answered by another node of which the process knows the same types.
other_answered :
    (on_creq_login proto pb gate_site (routed proto sent login) login relaying).0 ≡ ok tt
unfolding on_creq_login resp publish send_bytes pack get_type get_member type_of_found pack_message
    on_marshal register_message add_member get empty put hash checksum_ieee bytes_of
other_answered = refl

other_type : type_hash proto login_response ≢ type_hash proto login_request
unfolding hash checksum_ieee bytes_of
other_type h = ground (arith, h)

first_answer_lost_example :
    (bytes : List ℕ) × Taken gate_site "gate1" bytes []
      (on_creq_login proto pb gate_site (routed proto sent login) login relaying).1.published
    × (process proto bytes (set_default_handler 60 gate_node.receiver)
        ≡ (ok tt, set_default_handler 60 gate_node.receiver))
first_answer_lost_example =
    first_answer_lost proto pb proto-IsLossless app agents_only 50 60 gate_site
      (routed proto sent login) login relaying has_agents one_type-IsConsistent other_type
      other_answered answer-Fits

-- gate.Run of gate1, of which the hooks do nothing.
abbrev services : Services (World Kind Msg ℕ ℕ)
services = record {
  worker_start = pure tt;
  worker_stop = pure tt;
  cluster_init = pure tt;
  cluster_stop = pure tt;
  discovery_load = pure tt;
  parser_init = pure tt;
  parser_on_after_init = pure tt;
  agents_init = pure tt;
  connectors = [];
}

abbrev stays :
    Application (World Kind Msg ℕ ℕ) × World Kind Msg ℕ ℕ
    → Application (World Kind Msg ℕ ℕ) × World Kind Msg ℕ ℕ
stays s = s

run_outcome_example :
    ((find_node conf "gate1" ≡ none)
      × (run proto pb stays services 50 conf "gate1" (new_gate, 0)
          ≡ (err (errorf "[nodeId = %s] not found" (text "gate1" ∷ [])), (new_gate, 0))))
    ⊎ ((cfg : NodeCfg) × (find_node conf "gate1" ≡ some cfg)
        × (((cfg.is_gate ≡ false)
              × (run proto pb stays services 50 conf "gate1" (new_gate, 0) ≡ (
                panic "interface conversion: facade.IComponent is nil, not *xagent.Agents",
                (new_gate, 0),
              )))
            ⊎ ((cfg.is_gate ≡ true)
                × ((n : Node (World Kind Msg ℕ ℕ)) × (g' : Gate Kind Msg ℕ) × (new_app_node services
                        conf "gate1"
                      ≡ ok n)
                    × ServesLogins proto pb 50 g'
                    × (run proto pb stays services 50 conf "gate1" (new_gate, 0)
                        ≡ (let (r, s) = startup stays (n.app, (g', 0)) in (r, s.1)))))))
run_outcome_example =
    run_outcome proto pb stays services 50 conf "gate1" new_gate 0 (new_gate-IsNew proto pb)
