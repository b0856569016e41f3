-- ===== src/Xagent/Agent/Heartbeat.antt =====
-- The heartbeat of framework/pkg/xagent/agent.go: SetLastAt, which NewAgent and processPacket call, and the ticks of
-- writeChan. Times are in nanoseconds since 1970, as time.Now has them; the goroutine takes each tick of its ticker when
-- it comes.
use xgame.Common.{
  ℕ, ◌+◌, ◌-◌, ◌*◌, ◌/◌, ◌<◌, ◌≤◌, ◌≡◌, refl, sym, ap, ◌∙◌, Bool, true, false, Bool-cases, inl, inr,
  ltb, if◌then◌else◌, arith,
}

abbrev pub second : ℕ
second = 1000000000

-- time.Time.Unix
abbrev pub unix : ℕ → ℕ
unix t = t / second

-- What the heartbeat reads and writes, and what has happened.
pub record Beat : Type 0 where
  pub heartbeat_time : ℕ
  pub now : ℕ
  pub next_tick : ℕ
  pub last_at : ℕ  -- in seconds
  pub alive : Bool  -- writeChan runs
  pub last : ℕ  -- when SetLastAt was called last
  pub closed_at : ℕ  -- when a tick has ended writeChan

-- NewAgent and Start, at a time
abbrev pub new_beat : ℕ → ℕ → Beat
new_beat heartbeat_time now = record {
  heartbeat_time = heartbeat_time;
  now = now;
  next_tick = now + heartbeat_time;
  last_at = unix now;
  alive = true;
  last = now;
  closed_at = 0;
}

-- SetLastAt
abbrev pub set_last_at : Beat → Beat
set_last_at b = record b { last_at = unix b.now; last = b.now }

-- `case <-ticker.C`
unfoldable pub ticked : Beat → Beat
ticked b =
    if ltb b.last_at (unix (b.now - b.heartbeat_time))
    then record b { alive = false; closed_at = b.now }
    else record b { next_tick = b.next_tick + b.heartbeat_time }

pub data Step (b : Beat) : Beat → Type 0 where
  pass : (d : ℕ) → b.alive ≡ true → b.now + d ≤ b.next_tick → Step b (record b { now = b.now + d })
  -- The end of processPacket, when it has sent a message on
  relayed : b.alive ≡ true → Step b (set_last_at b)
  tick : b.alive ≡ true → b.now ≡ b.next_tick → Step b (ticked b)
  -- Time goes on when writeChan has ended.
  after : (d : ℕ) → b.alive ≡ false → Step b (record b { now = b.now + d })

pub data Reach (heartbeat_time start : ℕ) : Beat → Type 0 where
  init : Reach heartbeat_time start (new_beat heartbeat_time start)
  next : {b c : Beat} → Reach heartbeat_time start b → Step b c → Reach heartbeat_time start c

-- What holds while writeChan runs.
record IsTimely (h : ℕ) (b : Beat) : Type 0 where
  same : b.heartbeat_time ≡ h
  whole : b.last_at ≡ unix b.last
  ordered : b.last ≤ b.now
  early : b.now ≤ b.next_tick
  soon : b.next_tick < b.last + (2 * h + second)
  long : h ≤ b.next_tick

-- What holds once a tick has ended it.
record IsOver (h : ℕ) (b : Beat) : Type 0 where
  idle : b.last + h < b.closed_at
  soon : b.closed_at < b.last + (2 * h + second)

-- The times of the heartbeat.
pub record IsBounded (h : ℕ) (b : Beat) : Type 0 where
  pub running : b.alive ≡ true → b.now < b.last + (2 * h + second)
  pub ended :
      b.alive ≡ false → (b.last + h < b.closed_at) × (b.closed_at < b.last + (2 * h + second))

-- The test of a tick, on whole seconds, against times.
late_idle : (last now h : ℕ) → h ≤ now → ltb (unix last) (unix (now - h)) ≡ true → last + h < now
late_idle last now h long late =
    let less : unix last < unix (now - h) = ground (arith, late) in omega (arith, less, long)

fresh_soon :
    (last now h : ℕ)
    → h ≤ now
    → ltb (unix last) (unix (now - h)) ≡ false
    → now + h < last + (2 * h + second)
fresh_soon last now h long fresh =
    let less : unix (now - h) ≤ unix last = ground (arith, fresh) in omega (arith, less, long)

abbrev Holds : ℕ → Beat → Type 0
Holds h b = (b.alive ≡ true → IsTimely h b) × (b.alive ≡ false → IsOver h b)

late-Holds :
    (h : ℕ) (b : Beat)
    → b.now ≡ b.next_tick
    → IsTimely h b
    → ltb b.last_at (unix (b.now - b.heartbeat_time)) ≡ true
    → Holds h (record b { alive = false; closed_at = b.now })
late-Holds h b at k late = (
  λ q. cc,
  λ q. record {
    idle = late_idle b.last b.now h (omega (arith, at, k.long)) (
        sym (
          ap (λ x. ltb x (unix (b.now - b.heartbeat_time))) k.whole
          ∙ ap (λ x. ltb (unix b.last) (unix (b.now - x))) k.same)
        ∙ late);
    soon = omega (arith, at, k.soon);
  },
)

fresh-Holds :
    (h : ℕ) (b : Beat)
    → b.alive ≡ true
    → b.now ≡ b.next_tick
    → IsTimely h b
    → ltb b.last_at (unix (b.now - b.heartbeat_time)) ≡ false
    → Holds h (record b { next_tick = b.next_tick + b.heartbeat_time })
fresh-Holds h b alive at k fresh = (
  λ q. record {
    same = k.same;
    whole = k.whole;
    ordered = k.ordered;
    early = omega (arith, at);
    soon =
        let bound = fresh_soon b.last b.now h (omega (arith, at, k.long)) (
          sym (
            ap (λ x. ltb x (unix (b.now - b.heartbeat_time))) k.whole
            ∙ ap (λ x. ltb (unix b.last) (unix (b.now - x))) k.same)
          ∙ fresh) in
        omega (arith, bound, at, k.same);
    long = omega (arith, k.long);
  },
  λ q. cc,
)

ticked-Holds :
    (h : ℕ) (b : Beat) → b.alive ≡ true → b.now ≡ b.next_tick → IsTimely h b → Holds h (ticked b)
unfolding ticked
ticked-Holds h b alive at k = elim (Bool-cases (ltb b.last_at (unix (b.now - b.heartbeat_time)))) [
  | inl late ↦ simp late (late-Holds h b at k late)
  | inr fresh ↦ simp fresh (fresh-Holds h b alive at k fresh)
]

step-Holds : {h : ℕ} {b c : Beat} → Step b c → Holds h b → Holds h c
step-Holds (pass d alive room) k =
    let t = k.0 alive in
    (
      λ q. record {
        same = t.same;
        whole = t.whole;
        ordered = omega (arith, t.ordered);
        early = room;
        soon = t.soon;
        long = t.long;
      },
      λ q. cc,
    )
step-Holds (relayed alive) k =
    let t = k.0 alive in
    (
      λ q. record {
        same = t.same;
        whole = refl;
        ordered = omega arith;
        early = t.early;
        soon = omega (arith, t.soon, t.ordered);
        long = t.long;
      },
      λ q. cc,
    )
step-Holds {h} {b} (tick alive at) k = ticked-Holds h b alive at (k.0 alive)
step-Holds (after d over) k =
    (λ q. cc, λ q. record { idle = (k.1 over).idle; soon = (k.1 over).soon })

reach-Holds : {h start : ℕ} {b : Beat} → Reach h start b → 0 < h → Holds h b
reach-Holds {h} {start} init positive = (
  λ q. record {
    same = refl;
    whole = refl;
    ordered = omega arith;
    early = omega arith;
    soon = omega arith;
    long = omega arith;
  },
  λ q. cc,
)
reach-Holds (next r s) positive = step-Holds s (reach-Holds r positive)

-- With the heartbeat time h: as long as writeChan runs, less than 2 h and a second have passed since processPacket has
-- last sent a message of the client on, or since the start. When a tick ends it, more than h and less than 2 h and a
-- second had passed since then. So a client of which a message is sent on at least every h is never cut off, although
-- the times are compared in whole seconds. This is for a goroutine that takes every tick when it comes.
pub Reach-IsBounded : (h start : ℕ) (b : Beat) → 0 < h → Reach h start b → IsBounded h b
Reach-IsBounded h start b positive r =
    let k = reach-Holds r positive in
    record {
      running = λ q. omega (arith, (k.0 q).early, (k.0 q).soon);
      ended = λ q. ((k.1 q).idle, (k.1 q).soon);
    }
