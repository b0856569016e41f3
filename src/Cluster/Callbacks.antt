-- ===== src/Cluster/Callbacks.antt =====
-- framework/pkg/cluster/requester.go: the callbacks of requests that wait for an answer.
use native.Mathlib.Nat.{mod-eq_of_lt}
use xgame.Common.{
  ap, ◌∙◌, ℕ, ◌+◌, ◌%◌, ◌^◌, ◌≤◌, ◌<◌, ◌≡◌, ◌≢◌, refl, Option, none, some, ℕ_eq, arith, ◌⊎◌,
  nat_eq_iff, Option-cases, inl, inr,
}
use xgame.Common.Map
use xgame.Common.Map.{Map, get-put, get-remove, get-empty}
use xgame.Go.{Result, ok, err, panic, Exec}

-- `H` are the callbacks.
pub record Requester (H : Type 0) : Type 0 where
  pub handlers : Map ℕ H
  pub mid : ℕ  -- uint32

module _ {H : Type 0} where
  -- newRpcHandlerMgr
  abbrev pub new_requester : Requester H
  new_requester = record { handlers = Map.empty; mid = 0 }

  -- registerCallback; `none` is nil.
  unfoldable pub register_callback : Option H → Requester H → ℕ × Requester H
  register_callback none r = (0, r)
  register_callback (some h) r =
      let mid = (r.mid + 1) % 2 ^ 32 in
      (mid, record { handlers = Map.put r.handlers mid h; mid = mid })

  -- unregisterCallback
  unfoldable pub unregister_callback : ℕ → Requester H → Requester H
  unregister_callback mid r = record r { handlers = Map.remove r.handlers mid }

module _ {H : Type 0} where
  pub unregister_callback-get :
      (mid : ℕ) (r : Requester H)
      → (Map.get (unregister_callback mid r).handlers mid ≡ none)
        × ((other : ℕ)
            → other ≢ mid
            → Map.get (unregister_callback mid r).handlers other ≡ Map.get r.handlers other)
  unfolding unregister_callback
  unregister_callback-get mid r = (
    get-remove r.handlers mid mid ∙ ground (arith, nat_eq_iff mid mid),
    λ other away. get-remove r.handlers mid other ∙ ground (arith, nat_eq_iff mid other, away),
  )

module _ {H M : Type 0} (call : H → M → Exec (Requester H) (Unit {0})) where
  -- A call of `p.handlers[mid]`: that of nil panics.
  call_found : Option H → M → Exec (Requester H) (Unit {0})
  call_found none response r = (panic "invalid memory address or nil pointer dereference", r)
  call_found (some h) response r = call h response r

  finish : ℕ → Result (Unit {0}) × Requester H → Result (Unit {0}) × Requester H
  finish mid (ok x, r) = (ok tt, unregister_callback mid r)
  finish mid (err x, r) = (err x, r)
  finish mid (panic x, r) = (panic x, r)

  -- The function that getCallback returns, when it is called with a response. What a callback does, new
  -- requests included, is `call`.
  unfoldable pub run_callback : ℕ → M → Exec (Requester H) (Unit {0})
  unfolding call_found finish
  run_callback mid response r = finish mid (call_found (Map.get r.handlers mid) response r)

  returned :
      (mid : ℕ) (h : H) (response : M) (r : Requester H) (x : Result (Unit {0})) (r' : Requester H)
      → call h response r ≡ (x, r')
      → Map.get r.handlers mid ≡ some h
      → ((r'' : Requester H) × (call h response r ≡ (ok tt, r''))
          × (finish mid (call h response r) ≡ (ok tt, unregister_callback mid r'')))
        ⊎ (((call h response r).0 ≢ ok tt) × (finish mid (call h response r) ≡ call h response r))
  unfolding finish
  returned mid h response r (ok x) r' q known = inl (r', q, rw (q, finish) refl)
  returned mid h response r (err x) r' q known = inr (rw q (λ z. cc), rw (q, finish) refl)
  returned mid h response r (panic x) r' q known = inr (rw q (λ z. cc), rw (q, finish) refl)

  -- The response to a request that has a callback calls this callback with the response. When the callback returns, so
  -- does this call, and then the mid has no callback any more and all others have theirs, as the callback has left
  -- them. When it does not return, this call ends as it does. A response to a mid without a callback, a second one or
  -- one to a request without callback, panics and changes nothing.
  pub run_callback_outcome :
      (mid : ℕ) (response : M) (r : Requester H)
      → let ran = run_callback mid response r in
        ((h : H) × (r' : Requester H) × (Map.get r.handlers mid ≡ some h)
          × (call h response r ≡ (ok tt, r'))
          × (ran.0 ≡ ok tt)
          × (Map.get ran.1.handlers mid ≡ none)
          × ((other : ℕ) → other ≢ mid → Map.get ran.1.handlers other ≡ Map.get r'.handlers other))
        ⊎ ((h : H) × (Map.get r.handlers mid ≡ some h)
            × ((call h response r).0 ≢ ok tt)
            × (ran ≡ call h response r))
        ⊎ ((Map.get r.handlers mid ≡ none)
            × (ran ≡ (panic "invalid memory address or nil pointer dereference", r)))
  unfolding run_callback
  run_callback_outcome mid response r = elim (Option-cases (Map.get r.handlers mid)) [
    | inl absent ↦ rw (absent, call_found, finish) (inr (inr (refl, refl)))
    | inr (h, known) ↦
        let (x, r') = call h response r in
        elim (returned mid h response r x r' refl known) [
          | inl (r'', ran, done) ↦
              let (gone, kept) = unregister_callback-get mid r'' in
              rw (known, call_found)
                (inl (
                  h,
                  r'',
                  refl,
                  ran,
                  ap (λ y. y.0) done,
                  ap (λ y. Map.get y.1.handlers mid) done ∙ gone,
                  λ other away. ap (λ y. Map.get y.1.handlers other) done ∙ kept other away,
                ))
          | inr (bad, done) ↦ inr (inl (h, known, bad, rw (known, call_found) done))
        ]
  ]

-- The branch that callers rely on.
module _ {H M : Type 0} (call : H → M → Exec (Requester H) (Unit {0})) where
  pub run_callback-ok :
      (mid : ℕ) (response : M) (r r' : Requester H) (h : H)
      → Map.get r.handlers mid ≡ some h
      → call h response r ≡ (ok tt, r')
      → run_callback call mid response r ≡ (ok tt, unregister_callback mid r')
  unfolding run_callback
  run_callback-ok mid response r r' h known returns = rw (known, call_found, returns, finish) refl

-- The callbacks that wait have mids from 1 up to the last one that was given.
pub record IsNumbered {H : Type 0} (r : Requester H) : Type 0 where
  pub small : r.mid < 2 ^ 32
  pub given : (mid : ℕ) (h : H) → Map.get r.handlers mid ≡ some h → (0 < mid) × (mid ≤ r.mid)

module _ {H : Type 0} where
  pub new-IsNumbered : IsNumbered (new_requester {H = H})
  new-IsNumbered = record { small = omega arith; given = λ mid h e. cc (get-empty {V = H} mid) }

  pub unregister-IsNumbered :
      (mid : ℕ) (r : Requester H) → IsNumbered r → IsNumbered (unregister_callback mid r)
  unfolding unregister_callback
  unregister-IsNumbered mid r k = record {
    small = k.small;
    given = λ j h. simp get-remove (ground (arith, k.given j h));
  }

  -- Up to 2^32 - 1 requests, registerCallback gives a callback a mid that is not 0 and that no waiting callback
  -- has, files the callback under it, leaves all others in place, and keeps the waiting mids between 1 and
  -- the last one given.
  pub register_callback_fresh :
      (h : H) (r : Requester H)
      → IsNumbered r
      → r.mid + 1 < 2 ^ 32
      → let (mid, r') = register_callback (some h) r in
        (0 < mid)
        × (Map.get r.handlers mid ≡ none)
        × (Map.get r'.handlers mid ≡ some h)
        × ((other : ℕ) → other ≢ mid → Map.get r'.handlers other ≡ Map.get r.handlers other)
        × IsNumbered r'
  unfolding register_callback
  register_callback_fresh h r k room =
      let mid = (r.mid + 1) % 2 ^ 32 in
      let step : mid ≡ r.mid + 1 = mod-eq_of_lt room in
      (
        omega (arith, step),
        elim (Option-cases (Map.get r.handlers mid)) [
          | inl absent ↦ absent
          | inr (g, known) ↦ absurd (omega (arith, step, k.given mid g known))
        ],
        simp get-put (ground (arith, nat_eq_iff mid mid)),
        λ other ne. simp get-put (ground (arith, nat_eq_iff mid other, ne)),
        record {
          small = omega (arith, step);
          given = λ j g. simp get-put (ground (arith, k.given j g, step, nat_eq_iff mid j));
        },
      )

  pub register_callback_filed :
      (h : H) (r : Requester H)
      → let (mid, r') = register_callback (some h) r in Map.get r'.handlers mid ≡ some h
  unfolding register_callback
  register_callback_filed h r =
      let mid = (r.mid + 1) % 2 ^ 32 in simp get-put (ground (arith, nat_eq_iff mid mid))
