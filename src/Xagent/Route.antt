-- ===== src/Xagent/Route.antt =====
-- framework/pkg/xagent/route.go: which node type serves a message. `log.Fatalf` ends the process, and is
-- a `panic` here.
use xgame.Common.{
  ℕ, ◌≡◌, ◌≢◌, refl, ◌∙◌, Option, none, some, String, List, [], ◌∷◌, ℕ_eq, string_eq, ◌==◌,
  if◌then◌else◌, not, arith, eq_iff,
}
use xgame.Common.Map
use xgame.Common.Map.{Map, get-empty, get-put}
use xgame.Go.{ok, panic, Exec, ◌>>=◌, continue-keeps}
use xgame.Packet.Registry.{hash}

pub record RouteMgr : Type 0 where
  pub route2node_typ : Map ℕ String
  pub route2name : Map ℕ String

abbrev pub new_route_mgr : RouteMgr
new_route_mgr = record { route2node_typ = Map.empty; route2name = Map.empty }

-- rm.route2Name[route], with the zero value for a missing key
abbrev name_of : Option String → String
name_of none = ""
name_of (some name) = name

-- addRoute of a message with this full name. A duplicate with the recorded name is only a warning.
unfoldable pub add_route : String → String → Exec RouteMgr (Unit {0})
add_route name node_typ rm =
    let added = record rm { route2node_typ = Map.put rm.route2node_typ (hash name) node_typ } in
    elim (Map.get rm.route2node_typ (hash name)) [
      | none ↦ (ok tt, added)
      | some old ↦
          if not (name_of (Map.get rm.route2name (hash name)) == name)
          then (panic "duplicate route", rm)
          else (ok tt, added)
    ]

-- The node type for a route; the zero value when there is none.
unfoldable pub node_type_of : RouteMgr → ℕ → String
node_type_of rm route = name_of (Map.get rm.route2node_typ route)

-- Calls of addRoute in order.
unfoldable pub add_routes : List (String × String) → Exec RouteMgr (Unit {0})
add_routes [] rm = (ok tt, rm)
add_routes ((name, typ) ∷ rest) rm = (add_route name typ >>= λ _. add_routes rest) rm

-- addRoute never records a name.
route2name-add_route :
    (name typ : String) (rm : RouteMgr) → (add_route name typ rm).1.route2name ≡ rm.route2name
unfolding add_route
route2name-add_route name typ rm = ground arith

route2name-add_routes :
    (rs : List (String × String)) (rm : RouteMgr) → (add_routes rs rm).1.route2name ≡ rm.route2name
unfolding add_routes
route2name-add_routes [] rm = refl
route2name-add_routes ((name, typ) ∷ rs) rm =
    continue-keeps (λ t. t.route2name ≡ rm.route2name) (add_route name typ rm).0
      (λ _. add_routes rs) (add_route name typ rm).1 (route2name-add_route name typ rm)
      λ _ t e. route2name-add_routes rs t ∙ e

unrecorded :
    (rs : List (String × String)) (route : ℕ)
    → Map.get (add_routes rs new_route_mgr).1.route2name route ≡ none
unrecorded rs route = rw (route2name-add_routes rs new_route_mgr) (get-empty route)

-- When addRoute returns, the node type of the checksum of the message's name is the one it was
-- given, and those of all other routes are as before.
pub node_type_of-add_route :
    (name typ : String) (rm : RouteMgr) (route : ℕ)
    → (add_route name typ rm).0 ≡ ok tt
    → node_type_of (add_route name typ rm).1 route
      ≡ (if hash name == route then typ else node_type_of rm route)
unfolding add_route node_type_of
node_type_of-add_route name typ rm route h =
    ground (arith, get-put rm.route2node_typ (hash name) route typ)

-- After any calls of addRoute on a new routeMgr, addRoute of a named message whose route is set
-- already, be it by the same message, ends the process and changes nothing.
pub add_route_twice :
    (rs : List (String × String)) (name typ old : String)
    → name ≢ ""
    → Map.get (add_routes rs new_route_mgr).1.route2node_typ (hash name) ≡ some old
    → let rm = (add_routes rs new_route_mgr).1 in
      add_route name typ rm ≡ (panic "duplicate route", rm)
unfolding add_route
add_route_twice rs name typ old h known =
    ground (arith, known, unrecorded rs (hash name), eq_iff "" name)
