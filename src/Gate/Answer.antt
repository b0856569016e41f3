-- ===== src/Gate/Answer.antt =====
-- A login that a gate node answers itself.
use xgame.Common.{ℕ_eq, string_eq}
use xgame.Common.Map
use xgame.Packet.Registry.{Registry}
use xgame.Cluster.{Cluster}
use xgame.Cluster.Handlers.{Receiver}
use xgame.Xagent.Agents.{Agents}
use xgame.Gate.{Gate}

module _ {T M L : Type 0} where
  -- The receiver of a process with another registry.
  abbrev pub with_types : Registry T → Receiver T M L → Receiver T M L
  with_types reg b = record b { registry = reg }
