-- ===== src/Application.antt =====
-- framework/application.go: the components of a node and their lifecycle. What the hooks of a component
-- change is the world `S`; the hooks of the repository do not change the list of components.
pub mod Die
pub mod Components
pub mod Lifecycle
pub mod Node
use xgame.Common.{
  ℕ, suc, ◌<◌, ◌||◌, Bool, true, false, Option, none, some, String, List, [], ◌∷◌, ◌++◌, map,
  string_eq, ◌==◌, ltb, if◌then◌else◌,
}
use mathlib.Core.List.{reverse}
use xgame.Go.{Result, ok, err, panic, Exec, ◌>>=◌, ◌>>◌, pure}
use xgame.Util.{try}

-- A method of a component, which may panic.
abbrev pub Hook : Type 0 → Type 0
Hook S = Exec S (Unit {0})

-- facade.IComponent
pub record Component (S : Type 0) : Type 0 where
  pub name : String
  pub set : Hook S
  pub init : Hook S
  pub on_after_init : Hook S
  pub on_before_stop : Hook S
  pub on_stop : Hook S

pub record Application (S : Type 0) : Type 0 where
  pub running : ℕ
  pub components : List (Component S)
  pub on_shutdown_fn : List (Hook S)
  pub connectors : List (Option (Component S))  -- of the netParser, if there is one
  pub worker_start : Hook S  -- IWorker.Start

module _ {S : Type 0} where
  -- Running
  abbrev pub is_running : Application S → Bool
  is_running a = ltb 0 a.running

  unfoldable pub find_in : String → List (Component S) → Option (Component S)
  find_in name [] = none
  find_in name (c ∷ cs) = if c.name == name then some c else find_in name cs

  -- Find
  unfoldable pub find : Application S → String → Option (Component S)
  unfolding find_in
  find a name = if name == "" then none else find_in name a.components

  -- The loop of Register; `none` is a nil component. It returns at the first one that it refuses.
  register_all : List (Option (Component S)) → Application S → Application S
  unfolding find
  register_all [] a = a
  register_all (none ∷ cs) a = a
  register_all (some c ∷ cs) a =
      let added = register_all cs (record a { components = a.components ++ c ∷ [] }) in
      if c.name == "" then a else elim (find a c.name) [ some old ↦ a | none ↦ added ]

  -- Register
  unfoldable pub register : List (Option (Component S)) → Application S → Application S
  unfolding register_all
  register cs a = if is_running a then a else register_all cs a

  -- The loop of Remove: the last component of the name, and the others.
  remove_from :
      String → Option (Component S) → List (Component S) → Option (Component S) × List (Component S)
  remove_from name found [] = (found, [])
  remove_from name found (c ∷ cs) =
      let gone = remove_from name (some c) cs in
      let kept = remove_from name found cs in if c.name == name then gone else (kept.0, c ∷ kept.1)

  -- Remove
  unfoldable pub remove : String → Application S → Option (Component S) × Application S
  unfolding remove_from
  remove name a =
      if name == ""
      then (none, a)
      else let (found, rest) = remove_from name none a.components in
        (found, record a { components = rest })

  -- OnShutdown
  abbrev pub on_shutdown : List (Hook S) → Application S → Application S
  on_shutdown fns a = record a { on_shutdown_fn = a.on_shutdown_fn ++ fns }

  -- A loop that calls a hook of each component; a panic ends the process.
  unfoldable pub run_all : List (Hook S) → Hook S
  run_all [] = pure tt
  run_all (h ∷ hs) = h >> run_all hs

  -- A loop of util.Try; the catch functions only log.
  unfoldable pub try_all : List (Hook S) → S → S
  try_all [] s = s
  try_all (h ∷ hs) s = try_all hs (try h (λ text t. t) s).1

  -- `for _, connector := range a.netParser.Connectors() { a.Register(connector) }`
  unfoldable pub register_connectors : List (Option (Component S)) → Application S → Application S
  register_connectors [] a = a
  register_connectors (c ∷ cs) a = register_connectors cs (register (c ∷ []) a)

  -- Startup up to `a.IWorker.Start()`
  unfoldable pub start_hooks : Application S → List (Hook S)
  start_hooks a =
      map (λ c. c.set) a.components
      ++ (map (λ c. c.init) a.components
          ++ (map (λ c. c.on_after_init) a.components ++ a.worker_start ∷ []))

  -- Startup from `a.onShutdownFn`
  unfoldable pub stop_hooks : Application S → List (Hook S)
  stop_hooks a =
      a.on_shutdown_fn
      ++ (map (λ c. c.on_before_stop) (reverse a.components)
          ++ map (λ c. c.on_stop) (reverse a.components))

  -- What Startup does once it runs: `wait` is what happens until a signal or the die channel.
  serve :
      (Application S × S → Application S × S)
      → Result (Unit {0}) × S
      → Application S
      → Result (Unit {0}) × (Application S × S)
  serve wait (ok x, s) a =
      let (a', s') = wait (record a { running = suc a.running }, s) in
      let stopped = record a' { running = 0 } in (ok tt, (stopped, try_all (stop_hooks stopped) s'))
  serve wait (err x, s) a = (err x, (a, s))
  serve wait (panic x, s) a = (panic x, (a, s))

  -- Startup
  unfoldable pub startup :
      (Application S × S → Application S × S) → Exec (Application S × S) (Unit {0})
  unfolding serve
  startup wait (a, s) =
      if is_running a
      then (ok tt, (a, s))
      else let ready = register_connectors a.connectors a in
        serve wait (run_all (start_hooks ready) s) ready
