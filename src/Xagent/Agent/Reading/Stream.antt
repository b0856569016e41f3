-- ===== src/Xagent/Agent/Reading/Stream.antt =====
-- All the frames of a client, from its connection to NATS.
use xgame.Common.{ℕ, ℕ_eq, string_eq, ◌≡◌, some, String, List, [], ◌∷◌, ◌++◌, Eq}
use xgame.Go.{err}
use xgame.Go.Errors.{Error, packet_connect_closed}
use xgame.Pb.{MsgCommon, Session, Proto}
use xgame.Packet.Registry.{Registry}
use xgame.Packet.Codec.{Reader}
use xgame.Packet.Codec.Loop.{Messages, stopped}
use xgame.Cluster.{Site, Cluster}
use xgame.Xagent.Route.{RouteMgr}
use xgame.Xagent.Agent.{process_packet}
use xgame.Xagent.Agent.Reading.{read_chan}
use xgame.Xagent.Agent.Reading.Relay.{Relayed}

module _ {T M : Type 0} ⦃e : Eq T⦄ (H : Type 0) (p : Proto T M) (site : ℕ → Site) (intn : ℕ → ℕ → ℕ)
    (routes : RouteMgr) (session : Session) where
  -- What NATS gets for the messages of a client, in order: one frame for each, but for those of which processPacket
  -- has logged an error.
  pub data Relays (reg : Registry T) : Messages p → List (String × List ℕ) → Type 0 where
    nothing : Relays reg [] []
    relayed :
        {ms : Messages p} {out : List (String × List ℕ)} {c : MsgCommon} {m : M} (k : ℕ)
        (subject : String) (bytes : List ℕ)
        → Relayed p (site k) (intn k) routes session reg c m subject bytes
        → Relays reg ms out
        → Relays reg ((c, m) ∷ ms) ((subject, bytes) ∷ out)
    dropped :
        {ms : Messages p} {out : List (String × List ℕ)} {c : MsgCommon} {m : M} (k : ℕ)
        (s : Cluster T H) (x : Error)
        → s.registry ≡ reg
        → (process_packet p (site k) (intn k) routes session c m s).0 ≡ err x
        → Relays reg ms out
        → Relays reg ((c, m) ∷ ms) out

module _ {T M H : Type 0} ⦃e : Eq T⦄ (p : Proto T M) (site : ℕ → Site) (intn : ℕ → ℕ → ℕ)
    (routes : RouteMgr) (session : Session) where
  -- A run of readChan to the end of the connection, and what it has published.
  pub record Relaying (n : ℕ) (reg : Registry T) (ms : Messages p) (r : Reader) (s : Cluster T H)
      : Type 0 where
    pub after : Cluster T H
    pub out : List (String × List ℕ)
    pub run :
        read_chan p n site intn routes session r s ≡ some (stopped packet_connect_closed, after)
    pub published : after.published ≡ s.published ++ out
    pub relays : Relays H p site intn routes session reg ms out
