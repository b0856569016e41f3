-- ===== src/Xagent/Agent.antt =====
-- framework/pkg/xagent/agent.go and define.go: the queues of a connection and its two goroutines. A step is
-- one access to what they share; which case of the select is taken is left to the environment.
pub mod Writing
pub mod Deadlock
pub mod Gateway
pub mod Reading
pub mod Closing
pub mod Client
pub mod Heartbeat
use xgame.Common.{
  leb, ◌||◌, ℕ, suc, ◌≤◌, ◌<◌, ◌≡◌, ◌≢◌, Bool, true, false, Option, none, some, List, [], ◌∷◌, ◌++◌,
  length, ltb, nat_eq, Eq, if◌then◌else◌,
}
use xgame.Go.{Result, ok, err, panic, Exec, ◌>>=◌, ◌>>◌, pure, lift}
use xgame.Go.Errors.{Error, new}
use xgame.Pb.{MsgCommon, Session, Proto, Member}
use xgame.Packet.Registry.{Registry}
use xgame.Packet.Codec.{pack_message}
use xgame.Discovery.{random}
use xgame.Xagent.Route.{RouteMgr, node_type_of}
use xgame.Cluster.{Site, Cluster, pack, send_bytes}

abbrev pub agent_init : ℕ
agent_init = 0

abbrev pub agent_closed : ℕ
agent_closed = 3

-- SetHeartbeatTime, in seconds, and SetWriteBacklog
abbrev pub set_heartbeat_time : ℕ → ℕ → ℕ
set_heartbeat_time t old = if ltb 1 t then t else old

abbrev pub set_write_backlog : ℕ → ℕ → ℕ
set_write_backlog backlog old = if ltb 0 backlog then backlog else old

-- Where the goroutine of writeChan stands: at the select, in SendRaw with a frame, in closeProcess, at the
-- last Close, ended.
pub data Writer : Type 0 where
  selecting : Writer
  sending : List ℕ → Writer
  leaving : Writer
  closing : Writer
  ended : Writer

-- The fields of Agent, and what has happened.
pub record Agent (T M : Type 0) : Type 0 where
  pub state : ℕ
  pub die : Bool  -- chDie is closed
  pub backlog : ℕ  -- cap(chPending) and cap(chWrite)
  pub ch_pending : List (MsgCommon × M)
  pub ch_write : List (List ℕ)
  pub write_closed : Bool  -- chWrite is closed
  pub writer : Writer
  pub registry : Registry T
  pub checking : List (MsgCommon × M)  -- calls of sendPending between its two tests
  pub responding : List (MsgCommon × M)  -- calls of sendPending at `a.chPending <-`
  pub accepted : List (MsgCommon × M)  -- what was put into chPending, in order
  pub taken : List (MsgCommon × M)  -- what the writer has taken from it, in order
  pub packed : List (List ℕ)  -- the frames that PackMessage has made of that, in order
  pub written : List (List ℕ)  -- the frames given to conn.Write, in order

-- NewAgent, with Start
abbrev pub new_agent : {T M : Type 0} → ℕ → Registry T → Agent T M
new_agent backlog reg = record {
  state = agent_init;
  die = false;
  backlog = backlog;
  ch_pending = [];
  ch_write = [];
  write_closed = false;
  writer = selecting;
  registry = reg;
  checking = [];
  responding = [];
  accepted = [];
  taken = [];
  packed = [];
  written = [];
}

-- Close: SetState, and chDie when the state was another
unfoldable pub close : {T M : Type 0} → Agent T M → Agent T M
close a = if nat_eq a.state agent_closed then a else record a { state = agent_closed; die = true }

-- The first test of sendPending, which drops the message.
abbrev pub is_closed : {T M : Type 0} → Agent T M → Bool
is_closed a = nat_eq a.state agent_closed

module _ {T M : Type 0} ⦃e : Eq T⦄ (p : Proto T M) where
  -- processPending, up to SendRaw: a message that cannot be packed is dropped. A panic, on which the deferred calls of
  -- writeChan still run, ends the process.
  unfoldable pub after_pack : Result (MsgCommon × List ℕ) × Registry T → Agent T M → Agent T M
  after_pack (ok (c, bytes), reg) a = record a {
    registry = reg;
    packed = a.packed ++ bytes ∷ [];
    writer = sending bytes;
  }
  after_pack (err x, reg) a = record a { registry = reg }
  after_pack (panic x, reg) a = record a { registry = reg; writer = leaving }

  pub data Step (a : Agent T M) : Agent T M → Type 0 where
    -- sendPending, which Response calls: the test of the state
    respond_closed : is_closed a ≡ true → Step a a
    respond_open :
        (x : MsgCommon × M) → is_closed a ≡ false → Step a (record a { checking = x ∷ a.checking })
    -- the test of the length of chPending
    respond_full :
        (xs : List (MsgCommon × M)) (x : MsgCommon × M) (ys : List (MsgCommon × M))
        → a.checking ≡ xs ++ x ∷ ys
        → a.backlog ≤ length a.ch_pending
        → Step a (record a { checking = xs ++ ys })
    respond_room :
        (xs : List (MsgCommon × M)) (x : MsgCommon × M) (ys : List (MsgCommon × M))
        → a.checking ≡ xs ++ x ∷ ys
        → length a.ch_pending < a.backlog
        → Step a (record a { checking = xs ++ ys; responding = x ∷ a.responding })
    -- `a.chPending <-`, which waits while it is full
    respond :
        (xs : List (MsgCommon × M)) (x : MsgCommon × M) (ys : List (MsgCommon × M))
        → a.responding ≡ xs ++ x ∷ ys
        → length a.ch_pending < a.backlog
        → Step a (record a {
          responding = xs ++ ys;
          ch_pending = a.ch_pending ++ x ∷ [];
          accepted = a.accepted ++ x ∷ [];
        })
    -- `case pending := <-a.chPending`
    take_pending :
        (x : MsgCommon × M) (rest : List (MsgCommon × M))
        → a.writer ≡ selecting
        → a.ch_pending ≡ x ∷ rest
        → Step a (
            after_pack
              (pack_message p x.0 x.1 a.registry)
              (record a { ch_pending = rest; taken = a.taken ++ x ∷ [] }))
    -- SendRaw, which waits while chWrite is full
    send_raw :
        (bytes : List ℕ)
        → a.writer ≡ sending bytes
        → length a.ch_write < a.backlog
        → Step a (record a { ch_write = a.ch_write ++ bytes ∷ []; writer = selecting })
    -- `case bytes := <-a.chWrite`, and write, which only logs an error
    take_write :
        (bytes : List ℕ) (rest : List (List ℕ))
        → a.writer ≡ selecting
        → a.ch_write ≡ bytes ∷ rest
        → Step a (record a { ch_write = rest; written = a.written ++ bytes ∷ [] })
    -- `case <-a.chDie`, and the heartbeat
    die_seen : a.writer ≡ selecting → a.die ≡ true → Step a (record a { writer = leaving })
    timeout : a.writer ≡ selecting → Step a (record a { writer = leaving })
    -- closeProcess, and the last Close of writeChan
    close_process : a.writer ≡ leaving → Step a (record a { write_closed = true; writer = closing })
    close_last : a.writer ≡ closing → Step a (record (close a) { writer = ended })
    -- Close from outside, or by readChan when it ends
    close_outside : Step a (close a)

  pub data Reach (backlog : ℕ) (reg : Registry T) : Agent T M → Type 0 where
    init : Reach backlog reg (new_agent backlog reg)
    next : {a b : Agent T M} → Reach backlog reg a → Step a b → Reach backlog reg b

module _ {T M H : Type 0} ⦃e : Eq T⦄ (p : Proto T M) where
  packet_for : Site → Session → MsgCommon → M → Option Member → Exec (Cluster T H) (Unit {0})
  packet_for site session common msg none = λ s. (err (new "Node not found"), s)
  packet_for site session common msg (some member) = do
    packed ←
        pack p
          (record common {
            source_id = site.node_id;
            target_id = member.node_id;
            uid = session.uid;
            sid = session.sid;
          })
          msg
    send_bytes site member.node_id packed.1

  -- processPacket: a client's message goes to a random node of the type that serves its route. The errors that
  -- it logs come back here.
  unfoldable pub process_packet :
      Site → (ℕ → ℕ) → RouteMgr → Session → MsgCommon → M → Exec (Cluster T H) (Unit {0})
  unfolding packet_for
  process_packet site intn routes session common msg =
      packet_for site session common msg
        (random intn site.discovery (node_type_of routes common.route))
