-- ===== src/Auth.antt =====
-- auth/auth.go: an auth node, which answers every request with an empty RespAuth.
use xgame.Common.{Eq, true, String}
use xgame.Go.{Result, ok, err, panic, Exec}
use xgame.Pb.{MsgCommon, Proto}
use xgame.Profile.{ClusterCfg}
use xgame.Application.{Application, startup}
use xgame.Application.Node.{Services, Node, new_app_node}
use xgame.Cluster.{Site, Cluster, resp}
use xgame.Cluster.Handlers.{Callback, Receiver, listen_msg}

-- The generated messages that an auth node reads and writes.
pub record Svrmsg (M : Type 0) : Type 0 where
  pub req_auth : M  -- the nil *pb.ReqAuth
  pub resp_auth : M  -- &pb.RespAuth{}

module _ {T M H : Type 0} ⦃e : Eq T⦄ (p : Proto T M) (pb : Svrmsg M) where
  -- The function that Run gives to ListenMessage
  abbrev pub on_req_auth : Site → MsgCommon → M → Exec (Cluster T H) (Unit {0})
  on_req_auth site common req = resp p site common pb.resp_auth

module _ {T M L : Type 0} ⦃e : Eq T⦄ (p : Proto T M) (pb : Svrmsg M) where
  -- That function as reflection sees it, with `f` for it.
  abbrev pub auth_callback : L → Callback M L
  auth_callback f = record {
    is_func = true;
    num_in = 2;
    takes_sender = true;
    message = pb.req_auth;
    function = f;
  }

-- The handlers of the node, and the rest that the hooks change.
abbrev pub World : Type 0 → Type 0 → Type 0 → Type 0 → Type 0
World T M L W = Receiver T M L × W

module _ {T M L W : Type 0} ⦃e : Eq T⦄ (p : Proto T M) (pb : Svrmsg M) where
  started :
      (Application (World T M L W) × World T M L W → Application (World T M L W) × World T M L W)
      → Application (World T M L W)
      → W
      → Result (Unit {0}) × Receiver T M L
      → Result (Unit {0}) × World T M L W
  started wait app w (ok x, b) = let (r, s) = startup wait (app, (b, w)) in (r, s.1)
  started wait app w (err x, b) = (err x, (b, w))
  started wait app w (panic x, b) = (panic x, (b, w))

  run_node :
      (Application (World T M L W) × World T M L W → Application (World T M L W) × World T M L W)
      → L
      → Result (Node (World T M L W))
      → Exec (World T M L W) (Unit {0})
  unfolding started
  run_node wait f (ok node) (b, w) = started wait node.app w (listen_msg p (auth_callback p pb f) b)
  run_node wait f (err x) s = (err x, s)
  run_node wait f (panic x) s = (panic x, s)

  -- Run
  unfoldable pub run :
      (Application (World T M L W) × World T M L W → Application (World T M L W) × World T M L W)
      → Services (World T M L W)
      → L
      → ClusterCfg
      → String
      → Exec (World T M L W) (Unit {0})
  unfolding run_node
  run wait services f cfg node_id = run_node wait f (new_app_node services cfg node_id)
