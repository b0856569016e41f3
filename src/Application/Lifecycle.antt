-- ===== src/Application/Lifecycle.antt =====
-- The order in which Startup of framework/application.go calls the hooks of the components, and what a panic
-- in one of them does.
use mathlib.Core.List.{Memᴰ, append_assoc, reverse}
use xgame.Common.{suc, ◌≡◌, ◌≢◌, ◌⊎◌, inl, inr, refl, sym, ◌∙◌, ap, false, List, [], ◌∷◌, ◌++◌, map}
use xgame.Go.{Result, ok, err, panic, continue}
use xgame.Util.{try}
use xgame.Application.{
  Application, Component, Hook, is_running, run_all, try_all, register_connectors, start_hooks,
  stop_hooks, serve, startup,
}

returns-cases : (r : Result (Unit {0})) → (r ≡ ok tt) ⊎ (r ≢ ok tt)
returns-cases (ok x) = inl refl
returns-cases (err x) = inr (λ h. cc)
returns-cases (panic x) = inr (λ h. cc)

module _ {S : Type 0} where
  -- The world after calls of all the hooks, whether or not they panic.
  abbrev pub settle : List (Hook S) → S → S
  settle [] s = s
  settle (h ∷ hs) s = settle hs (h s).1

  -- No hook panics, when they are called one after another.
  abbrev pub AllReturn : List (Hook S) → S → Type 0
  AllReturn [] s = Unit
  AllReturn (h ∷ hs) s = ((h s).0 ≡ ok tt) × AllReturn hs (h s).1

  try-kept : (r : Result (Unit {0}) × S) → (try (λ s. r) (λ text t. t) r.1).1 ≡ r.1
  unfolding try
  try-kept (ok x, s) = refl
  try-kept (err x, s) = refl
  try-kept (panic x, s) = refl

  -- A loop of util.Try calls every hook, in order, also after one that panics.
  pub try_all-settle : (hs : List (Hook S)) (s : S) → try_all hs s ≡ settle hs s
  unfolding try_all try
  try_all-settle [] s = refl
  try_all-settle (h ∷ hs) s = ap (try_all hs) (try-kept (h s)) ∙ try_all-settle hs (h s).1

  -- A loop without Try has called every hook, or it has stopped at the first one that panics.
  pub record StopsAt (hs : List (Hook S)) (s : S) : Type 0 where
    pub before : List (Hook S)
    pub hook : Hook S
    pub skipped : List (Hook S)
    pub split : hs ≡ before ++ hook ∷ skipped
    pub returned : AllReturn before s
    pub failed : (hook (settle before s)).0 ≢ ok tt
    pub left : run_all hs s ≡ hook (settle before s)

  halts :
      (r : Result (Unit {0})) (f : Unit {0} → Hook S) (s : S) → r ≢ ok tt → continue r f s ≡ (r, s)
  halts (ok x) f s h = absurd (h refl)
  halts (err x) f s h = refl
  halts (panic x) f s h = refl

  run_all-outcome :
      (hs : List (Hook S)) (s : S)
      → (AllReturn hs s × (run_all hs s ≡ (ok tt, settle hs s))) ⊎ StopsAt hs s
  unfolding run_all
  run_all-outcome [] s = inl (tt, refl)
  run_all-outcome (h ∷ hs) s = elim (returns-cases (h s).0) [
    | inl good ↦ elim (run_all-outcome hs (h s).1) [
      | inl (all, ran) ↦ inl ((good, all), rw good ran)
      | inr stop ↦ inr (record {
        before = h ∷ stop.before;
        hook = stop.hook;
        skipped = stop.skipped;
        split = ap (λ x. h ∷ x) stop.split;
        returned = (good, stop.returned);
        failed = stop.failed;
        left = rw good stop.left;
      })
    ]
    | inr bad ↦ inr (record {
      before = [];
      hook = h;
      skipped = hs;
      split = refl;
      returned = tt;
      failed = bad;
      left = halts (h s).0 (λ _. run_all hs) (h s).1 bad;
    })
  ]

  -- The application while it waits, and once it has been told to stop.
  abbrev pub up : Application S → Application S
  up a = record a { running = suc a.running }

  abbrev pub down : Application S → Application S
  down a = record a { running = 0 }

  serve-failed :
      (wait : Application S × S → Application S × S) (r : Result (Unit {0}) × S) (a : Application S)
      → r.0 ≢ ok tt
      → serve wait r a ≡ (r.0, (a, r.1))
  unfolding serve
  serve-failed wait (ok x, s) a h = absurd (h refl)
  serve-failed wait (err x, s) a h = refl
  serve-failed wait (panic x, s) a h = refl

  -- Startup of an application that does not run, with its components once the connectors are registered: it calls Set
  -- of each component, then Init of each, then OnAfterInit of each, in the order of the components, and then the Start
  -- of the worker. If one of these panics, the others are not called and Startup ends with the panic. If none does, the
  -- application runs until `wait` ends, and then stops: each shutdown function, then OnBeforeStop of each component,
  -- then OnStop of each, the components in reverse order, is called, also after one that panics, and Startup returns.
  pub startup_outcome :
      (wait : Application S × S → Application S × S) (a : Application S) (s : S)
      → is_running a ≡ false
      → let ready = register_connectors a.connectors a in
        let hooks =
          map (λ c. c.set) ready.components
          ++ (map (λ c. c.init) ready.components
              ++ (map (λ c. c.on_after_init) ready.components ++ ready.worker_start ∷ [])) in
        let over = wait (up ready, settle hooks s) in
        let stops =
          over.0.on_shutdown_fn
          ++ (map (λ c. c.on_before_stop) (reverse over.0.components)
              ++ map (λ c. c.on_stop) (reverse over.0.components)) in
        (AllReturn hooks s × (startup wait (a, s) ≡ (ok tt, (down over.0, settle stops over.1))))
        ⊎ ((stop : StopsAt hooks s) × (startup wait (a, s) ≡ (
          (stop.hook (settle stop.before s)).0,
          (ready, (stop.hook (settle stop.before s)).1),
        )))
  unfolding startup serve start_hooks stop_hooks
  startup_outcome wait a s idle =
      let ready = register_connectors a.connectors a in
      elim (run_all-outcome (start_hooks ready) s) [
        | inl (all, ran) ↦ inl (all, rw (idle, ran, try_all-settle) refl)
        | inr stop ↦ inr (
          stop,
          rw (idle, stop.left)
              (serve-failed wait (stop.hook (settle stop.before s)) ready stop.failed),
        )
      ]

  middle :
      (f : Component S → Hook S) (c : Component S) (cs : List (Component S))
      → Memᴰ c cs
      → (xs : List (Hook S)) × (ys : List (Hook S)) × (map f cs ≡ xs ++ f c ∷ ys)
  middle f c [] h = elim h [ ]
  middle f c (d ∷ cs) (Memᴰ.head q) = ([], map f cs, ap (λ x. f x ∷ map f cs) (sym q))
  middle f c (d ∷ cs) (Memᴰ.tail h) =
      let (xs, ys, e) = middle f c cs h in (f d ∷ xs, ys, ap (λ zs. f d ∷ zs) e)

  -- When the worker is registered as a component whose OnAfterInit starts it, as NewAppNode does, the calls of
  -- Startup start the worker twice.
  pub starts_worker_twice :
      (a : Application S) (c : Component S)
      → Memᴰ c a.components
      → c.on_after_init ≡ a.worker_start
      → (xs : List (Hook S)) × (ys : List (Hook S)) × (start_hooks a
          ≡ xs ++ a.worker_start ∷ (ys ++ a.worker_start ∷ []))
  unfolding start_hooks
  starts_worker_twice a c h same =
      let (xs, ys, e) = middle (λ d. d.on_after_init) c a.components h in
      (
        map (λ d. d.set) a.components ++ (map (λ d. d.init) a.components ++ xs),
        ys,
        rw (e, same) (simp append_assoc),
      )
