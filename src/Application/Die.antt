-- ===== src/Application/Die.antt =====
-- The die channel of application.go: Shutdown sends on it, and Startup and the goroutine that keeps the lease of
-- discovery_etcd.go alive receive from it. The channel has no buffer, so a send and a receive meet in one step.
use xgame.Common.{ℕ, suc, ◌+◌, ◌≤◌, ◌<◌, ◌≡◌, ◌⊎◌, inl, inr, refl, Bool, true, false, arith, ℕ_eq}

-- Where Startup is: before its select, in it, or behind it.
pub data Phase : Type 0 where
  starting waiting stopping : Phase

pub record Die : Type 0 where
  pub phase : Phase
  pub keepalive : Bool  -- whether the goroutine of getLeaseId is in its select
  pub leased : Bool  -- whether getLeaseId has started it
  pub sending : ℕ  -- the calls of Shutdown that wait in their send
  pub returned : ℕ  -- the calls of Shutdown that have returned

abbrev pub new_die : Die
new_die = record { phase = starting; keepalive = false; leased = false; sending = 0; returned = 0 }

-- Shutdown, behind the Stop of its worker
abbrev pub send_die : Die → Die
send_die d = record d { sending = suc d.sending }

-- The select of Startup takes a value of the die channel.
abbrev pub startup_takes : ℕ → Die → Die
startup_takes n d = record d { phase = stopping; sending = n; returned = suc d.returned }

-- The select of the goroutine of getLeaseId takes one, and the goroutine returns.
abbrev pub keepalive_takes : ℕ → Die → Die
keepalive_takes n d = record d { keepalive = false; sending = n; returned = suc d.returned }

pub data Step (d : Die) : Die → Type 0 where
  -- getLeaseId, which Load calls once while the components start
  lease :
      d.phase ≡ starting → d.leased ≡ false → Step d (record d { keepalive = true; leased = true })
  start : d.phase ≡ starting → Step d (record d { phase = waiting })
  shutdown : Step d (send_die d)
  to_startup : (n : ℕ) → d.phase ≡ waiting → d.sending ≡ suc n → Step d (startup_takes n d)
  to_keepalive : (n : ℕ) → d.keepalive ≡ true → d.sending ≡ suc n → Step d (keepalive_takes n d)
  -- a signal of the system
  signal : d.phase ≡ waiting → Step d (record d { phase = stopping })

pub data Reach : Die → Type 0 where
  init : Reach new_die
  next : {d e : Die} → Reach d → Step d e → Reach e

abbrev ended : Phase → ℕ
ended starting = 0
ended waiting = 0
ended stopping = 1

abbrev taken : Bool → Bool → ℕ
taken true false = 1
taken true true = 0
taken false keepalive = 0

record IsCounted (d : Die) : Type 0 where
  few : d.returned ≤ ended d.phase + taken d.leased d.keepalive
  lit : d.leased ≡ false → d.keepalive ≡ false

Step-IsCounted : {d e : Die} → IsCounted d → Step d e → IsCounted e
Step-IsCounted k (lease p l) = record { few = ground (arith, k.few, p, l); lit = λ h. cc }
Step-IsCounted k (start p) = record { few = ground (arith, k.few, p); lit = k.lit }
Step-IsCounted k shutdown = record { few = k.few; lit = k.lit }
Step-IsCounted k (to_startup n p s) = record { few = ground (arith, k.few, p); lit = k.lit }
Step-IsCounted {d} k (to_keepalive n a s) = record {
  few = ground (arith, k.few, k.lit, a);
  lit = λ h. refl;
}
Step-IsCounted k (signal p) = record { few = ground (arith, k.few, p); lit = k.lit }

all-IsCounted : {d : Die} → Reach d → IsCounted d
all-IsCounted init = record { few = omega arith; lit = λ h. refl }
all-IsCounted (next r x) = Step-IsCounted (all-IsCounted r) x

received :
    (p : Phase) (leased keepalive : Bool) (n : ℕ)
    → n ≤ ended p + taken leased keepalive
    → 0 < n
    → (p ≡ stopping) ⊎ ((leased ≡ true) × (keepalive ≡ false) × (n ≡ 1))
received stopping leased keepalive n few some_returned = inl refl
received starting true true n few some_returned = absurd (omega arith)
received starting true false n few some_returned = inr (refl, refl, omega arith)
received starting false keepalive n few some_returned = absurd (omega arith)
received waiting true true n few some_returned = absurd (omega arith)
received waiting true false n few some_returned = inr (refl, refl, omega arith)
received waiting false keepalive n few some_returned = absurd (omega arith)

-- In every state that an interleaving reaches in which a call of Shutdown has returned, Startup has left its select,
-- or exactly one call has returned and the goroutine that keeps the lease of etcd has ended by it. So without
-- etcd a Shutdown that returns has stopped the application, and with etcd the second one has.
pub shutdown_received :
    {d : Die}
    → Reach d
    → 0 < d.returned
    → (d.phase ≡ stopping) ⊎ ((d.leased ≡ true) × (d.keepalive ≡ false) × (d.returned ≡ 1))
shutdown_received {d} r some_returned =
    received d.phase d.leased d.keepalive d.returned (all-IsCounted r).few some_returned

-- From every state that an interleaving reaches in which the application waits and the goroutine that keeps the lease
-- of etcd runs, one more call of Shutdown can return while the application goes on waiting and no other call that
-- waited has returned; the lease is then no longer kept.
pub shutdown_lost :
    {d : Die}
    → Reach d
    → d.phase ≡ waiting
    → d.keepalive ≡ true
    → (e : Die) × Reach e
      × (e.phase ≡ waiting)
      × (e.returned ≡ suc d.returned)
      × (e.sending ≡ d.sending)
      × (e.keepalive ≡ false)
shutdown_lost {d} r waits runs = (
  keepalive_takes d.sending (send_die d),
  next (next r shutdown) (to_keepalive d.sending runs refl),
  waits,
  refl,
  refl,
  refl,
)
