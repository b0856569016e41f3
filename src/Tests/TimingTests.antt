-- ===== src/Tests/TimingTests.antt =====
-- Runs of what goes on while others wait: the connections of a connector, calls of requestWait, the heartbeat.
use mathlib.Core.List.{Memᴰ}
use xgame.Common.{ℕ, ◌+◌, ◌⊎◌, ◌≡◌, refl, ap, ◌∙◌, true, some, [], ◌∷◌, arith, ℕ_eq}
use xgame.Common.Map.{get, put, empty}
use xgame.Connector.Tcp as Tcp
use xgame.Connector.Tcp.{Line, in_chan}
use xgame.Connector.Tcp.{stop_running, without_listener}
use xgame.Connector.Tcp.Served.{Serving, here, more, IsServed, CanServe, steps_left, all_called}
use xgame.Cluster.Callbacks.{register_callback}
use xgame.Cluster.Waiting as Waiting
use xgame.Cluster.Waiting.{Waits, new_waits, asked, waiting, timed_out, Runs, late_answers_block}
use xgame.Xagent.Agent.Heartbeat as Heartbeat
use xgame.Xagent.Agent.Heartbeat.{Beat, IsBounded, second, Reach-IsBounded}

-- A connection waits in the channel, the next one is in the hand of the loop, and the connector was stopped.
abbrev two_accepted : (l : Line ℕ) × Tcp.Reach 2 l × (l.accepted ≡ 7 ∷ 8 ∷ [])
two_accepted = (
  _,
  Tcp.Reach.next
      (Tcp.Reach.next
        (Tcp.Reach.next
          (Tcp.Reach.next
            (Tcp.Reach.next (Tcp.Reach.next Tcp.Reach.init (Tcp.Step.go_on refl refl))
              (Tcp.Step.accept 7 refl refl))
            (Tcp.Step.put 7 refl (omega arith)))
          (Tcp.Step.go_on refl refl))
        (Tcp.Step.accept 8 refl refl))
      Tcp.Step.stop,
  refl,
)

-- It is handed over, the loop puts the next one into the channel, and ends.
abbrev served_one : (m : Line ℕ) × Serving (without_listener (stop_running two_accepted.0)) 3 m
served_one = (
  _,
  more (more (more here (Tcp.Step.take 7 [] refl) tt) (Tcp.Step.put 8 refl (omega arith)) tt)
      (Tcp.Step.leave refl refl) tt,
)

all_called_example :
    (3 + steps_left served_one.0 ≡ steps_left two_accepted.0)
    × ((served_one.0).accepted ≡ (two_accepted.0).accepted)
    × (IsServed served_one.0 ⊎ CanServe served_one.0)
all_called_example = all_called 2 (omega arith) two_accepted.1 served_one.1

-- One goroutine of the worker: the answer 9 comes after the timeout.
abbrev timed : Waits ℕ
timed =
    let asking : Waits ℕ = asked waiting (new_waits 1) in
    record asking { calls = put asking.calls 0 timed_out }

abbrev blocked : Waits ℕ
blocked = record timed { free = 0; sending = (1, (0, 9)) ∷ [] }

its_call : get (asked {M = ℕ} waiting (new_waits 1)).calls 0 ≡ some waiting
unfolding get put empty
its_call = refl

its_callback : get (timed).requester.handlers 1 ≡ some 0
unfolding register_callback get put empty
its_callback = refl

is_late : get (blocked).calls 0 ≡ some timed_out
unfolding get put empty
is_late = refl

blocked-Reach : Waiting.Reach 1 blocked
blocked-Reach =
    Waiting.Reach.next
      (Waiting.Reach.next (Waiting.Reach.next Waiting.Reach.init Waiting.Step.ask)
        (Waiting.Step.timeout 0 its_call))
      (Waiting.Step.respond 1 0 0 9 refl its_callback)

all_late :
    (mid ch response : ℕ)
    → Memᴰ (mid, (ch, response)) (blocked).sending
    → get (blocked).calls ch ≡ some timed_out
all_late mid ch response (Memᴰ.head q) =
    let same : ch ≡ 0 = ap (λ (x : ℕ × (ℕ × ℕ)). x.1.0) q in
    ap (λ c. get (blocked).calls c) same ∙ is_late
all_late mid ch response (Memᴰ.tail h) = elim h [ ]

late_answers_block_example :
    ((asked waiting blocked).free ≡ 0) × ((asked waiting blocked).sending ≡ (1, (0, 9)) ∷ [])
late_answers_block_example =
    late_answers_block 1 blocked (asked waiting blocked) blocked-Reach refl all_late
      (Runs.then_ Runs.here Waiting.Step.ask)

-- An agent that has sent a message on after half a minute, at its first tick.
abbrev minute : ℕ
minute = 60000000000

abbrev active : (b : Beat) × Heartbeat.Reach minute minute b × (b.alive ≡ true)
active = (
  _,
  Heartbeat.Reach.next
      (Heartbeat.Reach.next
        (Heartbeat.Reach.next Heartbeat.Reach.init
          (Heartbeat.Step.pass 30000000000 refl (omega arith)))
        (Heartbeat.Step.relayed refl))
      (Heartbeat.Step.pass 30000000000 refl (omega arith)),
  refl,
)

Reach-IsBounded_example : IsBounded minute active.0
Reach-IsBounded_example = Reach-IsBounded minute minute active.0 (omega arith) active.1
