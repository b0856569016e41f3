-- ===== src/Xagent/Agent/Reading.antt =====
-- readChan of framework/pkg/xagent/agent.go: the frames of a client and what processPacket makes of each.
pub mod Relay
pub mod Stream
use xgame.Common.{ℕ, zero, suc, Option, none, some, List, Eq}
use xgame.Go.{Result, ok, err, panic, Exec}
use xgame.Pb.{MsgCommon, Session, Proto}
use xgame.Packet.Codec.{Reader, read_message}
use xgame.Packet.Codec.Loop.{End, stopped, crashed}
use xgame.Cluster.{Site, Cluster}
use xgame.Xagent.Route.{RouteMgr}
use xgame.Xagent.Agent.{process_packet}

module _ {T M H : Type 0} ⦃e : Eq T⦄ (p : Proto T M) where
  -- The rest of the loop behind processPacket, which has logged its error.
  unfoldable pub after_packet :
      (Cluster T H → Option (End × Cluster T H))
      → Result (Unit {0}) × Cluster T H
      → Option (End × Cluster T H)
  after_packet loop (ok x, s) = loop s
  after_packet loop (err x, s) = loop s
  after_packet loop (panic x, s) = some (crashed x, s)

  unfoldable pub after_message :
      (MsgCommon × M → Reader → Cluster T H → Option (End × Cluster T H))
      → Result (MsgCommon × M) × Reader
      → Cluster T H
      → Option (End × Cluster T H)
  after_message handle (ok x, r) s = handle x r s
  after_message handle (err x, r) s = some (stopped x, s)
  after_message handle (panic x, r) s = some (crashed x, s)

  -- readChan on fuel. What processPacket reads of the application, and the answers of rand.Intn, may be others at
  -- each call: they are those of `site n` and `intn n` when `n` rounds are left.
  unfoldable pub read_chan :
      ℕ
      → (ℕ → Site)
      → (ℕ → ℕ → ℕ)
      → RouteMgr
      → Session
      → Reader
      → Cluster T H
      → Option (End × Cluster T H)
  read_chan zero site intn routes session r s = none
  read_chan (suc n) site intn routes session r s =
      after_message
        (λ x r' s'.
          after_packet (read_chan n site intn routes session r')
            (process_packet p (site n) (intn n) routes session x.0 x.1 s'))
        (read_message p s.registry r) s
