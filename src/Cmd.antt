-- ===== src/Cmd.antt =====
-- The mains of cmd: those of gatesvr and authsvr differ in the Run that they call. Reading the profile is a matter
-- of os and encoding/json, and the logger is made by zap.
use xgame.Common.{true, false, ℕ, Option, none, some, String, List}
use xgame.Go.{Result, ok, err, panic, Exec}
use xgame.Go.Fmt.{Arg}
use xgame.Profile.{ClusterCfg, NodeCfg, parse_profile, find_node}
use xgame.Logger.{Level, Core, ZapConfig, init}

module _ {W : Type 0} where
  -- The goroutine of Run, which main waits for: its error is dropped, a panic ends the process.
  waited : List Core → Result (Unit {0}) × W → Result (Unit {0}) × (List Core × W)
  waited cores (ok x, w) = (ok tt, (cores, w))
  waited cores (err x, w) = (ok tt, (cores, w))
  waited cores (panic x, w) = (panic x, (cores, w))

  module _ (parse_level : String → Option Level) (format : String → List Arg → String)
      (run : ClusterCfg → String → Exec W (Unit {0})) where
    serve_node : ClusterCfg → String → Option NodeCfg → Exec (List Core × W) (Unit {0})
    unfolding waited
    serve_node cfg node_id none s = (panic "nodeId not exist", s)
    serve_node cfg node_id (some node) (old, w) =
        let (cores, _) = init parse_level format node.node_id node.node_type node.log old in
        waited cores (run cfg node_id w)

    serve : String → Result ClusterCfg → Exec (List Core × W) (Unit {0})
    unfolding serve_node
    serve node_id (ok cfg) = serve_node cfg node_id (find_node cfg node_id)
    serve node_id (err x) = λ s. (panic x.message, s)
    serve node_id (panic x) = λ s. (panic x, s)

    -- main, with the values of its flags
    unfoldable pub main :
        (String → Result (List ℕ))
        → (List ℕ → Result ClusterCfg)
        → String
        → String
        → Exec (List Core × W) (Unit {0})
    unfolding serve
    main read_file unmarshal conf node_id = serve node_id (parse_profile read_file unmarshal conf)

-- cmd/all-in-one/main.go: both nodes in one process. How the two goroutines take turns is the parameter `together`.
module _ {W : Type 0} (parse_level : String → Option Level) (format : String → List Arg → String)
    (together : Exec W (Unit {0}) → Exec W (Unit {0}) → Exec W (Unit {0}))
    (run_gate run_auth : ClusterCfg → String → Exec W (Unit {0})) where
  serve_both : Result ClusterCfg → Exec (List Core × W) (Unit {0})
  unfolding waited
  serve_both (ok cfg) (old, w) =
      let config : ZapConfig = record {
        level = "debug";
        enable_console_writer = true;
        enable_file_writer = false;
        filename = "";
      } in
      let (cores, _) = init parse_level format cfg.project "all-in-one" config old in
      waited cores (together (run_gate cfg "gate1") (run_auth cfg "auth1") w)
  serve_both (err x) s = (panic x.message, s)
  serve_both (panic x) s = (panic x, s)

  -- main, with the value of its flag
  unfoldable pub main_of_both :
      (String → Result (List ℕ))
      → (List ℕ → Result ClusterCfg)
      → String
      → Exec (List Core × W) (Unit {0})
  unfolding serve_both
  main_of_both read_file unmarshal conf = serve_both (parse_profile read_file unmarshal conf)
