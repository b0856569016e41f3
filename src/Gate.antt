-- ===== src/Gate.antt =====
-- gate/gate.go and gate/listen_message.go: a gate node, and the login that it answers.
pub mod Login
pub mod Answer
pub mod Lost
use xgame.Common.{ℕ, true, Option, none, some, String, List, Eq}
use xgame.Go.{Result, ok, err, panic, Exec, ◌>>◌}
use xgame.Pb.{MsgCommon, Proto}
use xgame.Packet.Registry.{empty_registry, hash}
use xgame.Profile.{ClusterCfg, node_type_gate}
use xgame.Application.{Application, find, startup}
use xgame.Application.Node.{Services, Node, new_app_node}
use xgame.Cluster.{Site, Cluster, resp}
use xgame.Cluster.Handlers.{Callback, Receiver, new_receiver, listen_msg}
use xgame.Xagent.Route.{RouteMgr, new_route_mgr, add_route}

-- pb.SRespLogin
pub record SRespLogin : Type 0 where
  pub code : ℕ  -- uint32
  pub uid : ℕ  -- uint64

-- The generated messages that a gate reads and writes.
pub record Climsg (M : Type 0) : Type 0 where
  pub creq_login : M  -- the nil *pb.CReqLogin
  pub account : M → String  -- the field of a *pb.CReqLogin
  pub sresp_login : SRespLogin → M

-- The answer of onCReqLogin
abbrev pub login_answer : String → SRespLogin
login_answer account = record { code = 0; uid = hash account }

module _ {T M H : Type 0} ⦃e : Eq T⦄ (p : Proto T M) (pb : Climsg M) where
  -- onCReqLogin, for a request that came with `common`
  unfoldable pub on_creq_login : Site → MsgCommon → M → Exec (Cluster T H) (Unit {0})
  on_creq_login site common req =
      resp p site common (pb.sresp_login (login_answer (pb.account req)))

-- What Run sets up: the routes of the agents, and the handlers of the cluster.
pub record Gate (T M L : Type 0) : Type 0 where
  pub routes : RouteMgr
  pub receiver : Receiver T M L

-- What NewAppNode has made of both in a process that has registered no message.
abbrev pub new_gate : {T M L : Type 0} → Gate T M L
new_gate = record { routes = new_route_mgr; receiver = new_receiver empty_registry }

module _ {T M L : Type 0} ⦃e : Eq T⦄ (p : Proto T M) (pb : Climsg M) where
  -- routeMessage, with the component that Find returns; `none` is nil, which is not an *xagent.Agents.
  route_found : {C : Type 0} → Option C → Exec (Gate T M L) (Unit {0})
  route_found none g =
      (panic "interface conversion: facade.IComponent is nil, not *xagent.Agents", g)
  route_found (some agents) g =
      let (r, routes) = add_route (p.full_name (p.type_of pb.creq_login)) node_type_gate g.routes in
      (r, record g { routes = routes })

  -- routeMessage
  unfoldable pub route_message : {S : Type 0} → Application S → Exec (Gate T M L) (Unit {0})
  unfolding route_found
  route_message app = route_found (find app "agents_manager")

  -- onCReqLogin as reflection sees it, with `f` for the function.
  abbrev pub login_callback : L → Callback M L
  login_callback f = record {
    is_func = true;
    num_in = 2;
    takes_sender = true;
    message = pb.creq_login;
    function = f;
  }

  -- listenMessage
  unfoldable pub listen_message : L → Exec (Gate T M L) (Unit {0})
  listen_message f g =
      let (r, receiver) = listen_msg p (login_callback f) g.receiver in
      (r, record g { receiver = receiver })

  -- Run between NewAppNode and Startup
  unfoldable pub set_up : {S : Type 0} → Application S → L → Exec (Gate T M L) (Unit {0})
  set_up app f = route_message app >> listen_message f

-- The world of a gate node: what Run sets up, and the rest that the hooks change.
abbrev pub World : Type 0 → Type 0 → Type 0 → Type 0 → Type 0
World T M L W = Gate T M L × W

module _ {T M L W : Type 0} ⦃e : Eq T⦄ (p : Proto T M) (pb : Climsg M) where
  started :
      (Application (World T M L W) × World T M L W → Application (World T M L W) × World T M L W)
      → Application (World T M L W)
      → W
      → Result (Unit {0}) × Gate T M L
      → Result (Unit {0}) × World T M L W
  started wait app w (ok x, g) = let (r, s) = startup wait (app, (g, w)) in (r, s.1)
  started wait app w (err x, g) = (err x, (g, w))
  started wait app w (panic x, g) = (panic x, (g, w))

  run_node :
      (Application (World T M L W) × World T M L W → Application (World T M L W) × World T M L W)
      → L
      → Result (Node (World T M L W))
      → Exec (World T M L W) (Unit {0})
  unfolding started
  run_node wait f (ok node) (g, w) = started wait node.app w (set_up p pb node.app f g)
  run_node wait f (err x) s = (err x, s)
  run_node wait f (panic x) s = (panic x, s)

  -- Run
  unfoldable pub run :
      (Application (World T M L W) × World T M L W → Application (World T M L W) × World T M L W)
      → Services (World T M L W)
      → L
      → ClusterCfg
      → String
      → Exec (World T M L W) (Unit {0})
  unfolding run_node
  run wait services f cfg node_id = run_node wait f (new_app_node services cfg node_id)
