-- ===== src/Tests/XagentTests.antt =====
-- Runs of framework/pkg/xagent, on two connections.
use xgame.Common.{
  ℕ, map, ◌≡◌, ◌≢◌, ◌↔◌, refl, none, some, String, List, [], ◌∷◌, ℕ_eq, string_eq, ◌==◌,
  if◌then◌else◌, arith, eq_iff,
}
use xgame.Common.Map.{get, put, empty, get-put, get-empty}
use xgame.Go.{ok, panic}
use xgame.Go.Crc32.{checksum_ieee, bytes_of}
use xgame.Pb.{Session}
use xgame.Packet.Registry.{hash}
use xgame.Xagent.Agents.{
  Agents, Pointer, new_agents, uid_of, bind_sid, bind_uid, unbind, get_agent, get_agent_with_uid,
  new_connection,
}
use xgame.Xagent.Agents.Coherence.{
  IsCoherent, new-IsCoherent, bind_sid-IsCoherent, bind_uid-IsCoherent,
}
use xgame.Xagent.Agents.Connections.{Reach, init, next, connect, log_in, leave, Reach-IsCoherent}
use xgame.Xagent.Agents.Stale.{relogin_loses_user}
use xgame.Connector.{start}
use xgame.Xagent.Parser
use xgame.Xagent.Parser.{Parser, new_net_parser, on_after_init}
use xgame.Xagent.Route.{new_route_mgr, add_route, add_routes, add_route_twice}

abbrev sessions : Pointer → Session
sessions a = record { sid = if a == 0 then "first" else "second"; uid = 0; ip = "127.0.0.1" }

-- One connection is open, and then both.
abbrev one_open : Agents
one_open = bind_sid 0 (new_agents sessions)

abbrev both_open : Agents
both_open = bind_sid 1 one_open

first_open : get_agent both_open "first" ≡ some 0
unfolding bind_sid put get empty
first_open = refl

second_open : get_agent both_open "second" ≡ some 1
unfolding bind_sid put get empty
second_open = refl

one_open-IsCoherent : IsCoherent one_open
unfolding put get empty
one_open-IsCoherent =
    bind_sid-IsCoherent 0 (new_agents sessions) (new-IsCoherent sessions) refl refl

second_fresh : get_agent one_open "second" ≡ none
unfolding bind_sid put get empty
second_fresh = refl

second_guest : uid_of one_open 1 ≡ 0
unfolding bind_sid
second_guest = refl

both_open-IsCoherent : IsCoherent both_open
unfolding bind_sid
both_open-IsCoherent = bind_sid-IsCoherent 1 one_open one_open-IsCoherent second_fresh second_guest

all_guests : (a : Pointer) → uid_of both_open a ≡ 0
unfolding bind_sid
all_guests a = refl

no_user : get both_open.uid_map 42 ≡ none
unfolding bind_sid get empty
no_user = refl

-- User 42 on the first connection.
abbrev logged_in : Agents
logged_in = (bind_uid "first" 42 both_open).1

logged_in-IsCoherent : IsCoherent logged_in
logged_in-IsCoherent =
    bind_uid-IsCoherent "first" 42 both_open both_open-IsCoherent (λ a h. all_guests a) no_user

logged_in_found : get_agent_with_uid logged_in 42 ≡ some 0
unfolding get_agent_with_uid bind_uid bind_sid put get empty
logged_in_found = refl

first_unequal : ◌≢◌ {A = String} "first" "second"
first_unequal = λ h. ground (arith, eq_iff "first" "second", h)

first_named : ◌≢◌ {A = String} "first" ""
first_named = λ h. ground (arith, eq_iff "first" "", h)

second_named : ◌≢◌ {A = String} "second" ""
second_named = λ h. ground (arith, eq_iff "second" "", h)

relogin_loses_user_example :
    let s' = unbind "first" (bind_uid "second" 42 (bind_uid "first" 42 both_open).1).1 in
    (get_agent_with_uid s' 42 ≡ none) × (get_agent s' "second" ≡ some 1) × (uid_of s' 1 ≡ 42)
relogin_loses_user_example =
    relogin_loses_user both_open "first" "second" 0 1 42 first_named second_named first_unequal
      (λ h. omega arith) (omega arith) first_open second_open (λ h. omega (arith, all_guests 0))
      (λ h. omega (arith, all_guests 1))

-- One message, routed to the game nodes.
abbrev routes : List (String × String)
routes = ("climsg.CReqLogin", "game") ∷ []

login_routed : (add_route "climsg.CReqLogin" "game" new_route_mgr).0 ≡ ok tt
unfolding add_route get empty
login_routed = refl

login_unequal : ◌≢◌ {A = String} "climsg.CReqLogin" ""
login_unequal = λ h. ground (arith, eq_iff "climsg.CReqLogin" "", h)

login_known :
    get (add_routes routes new_route_mgr).1.route2node_typ (hash "climsg.CReqLogin") ≡ some "game"
unfolding add_route add_routes get put empty hash checksum_ieee bytes_of
login_known = refl

add_route_twice_example :
    let rm = (add_routes routes new_route_mgr).1 in
    add_route "climsg.CReqLogin" "game" rm ≡ (panic "duplicate route", rm)
add_route_twice_example =
    add_route_twice routes "climsg.CReqLogin" "game" "game" login_unequal login_known

-- Two clients connect, the first one logs in as user 42, and the second one leaves.
abbrev nobody : Pointer → Session
nobody a = record { sid = ""; uid = 0; ip = "" }

nobody_filed : (j : String) → get_agent (new_agents nobody) j ≢ some 0
nobody_filed j h = cc (h, get-empty {V = Pointer} j)

abbrev first_here : Agents
first_here = new_connection 0 "first" "127.0.0.1" (new_agents nobody)

abbrev both_here : Agents
both_here = new_connection 1 "second" "127.0.0.1" first_here

first_only : (j : String) → get_agent first_here j ≢ some 1
unfolding bind_sid
first_only j = simp get-put (λ h. ground (arith, h, get-empty {V = Pointer} j))

second_new : get_agent first_here "second" ≡ none
unfolding bind_sid get put empty
second_new = refl

first_is_guest : (a : Pointer) → get_agent both_here "first" ≡ some a → uid_of both_here a ≡ 0
unfolding bind_sid get put empty
first_is_guest a h = ground (arith, h)

user_free : get both_here.uid_map 42 ≡ none
unfolding bind_sid get empty
user_free = refl

abbrev played : (s : Agents) × Reach nobody s
played = (
  _,
  next
      (next
        (next
          (next init (connect 0 "first" "127.0.0.1" (get-empty {V = Pointer} "first") nobody_filed))
          (connect 1 "second" "127.0.0.1" second_new first_only))
        (log_in "first" 42 first_is_guest user_free))
      (leave "second"),
)

Reach-IsCoherent_example :
    IsCoherent played.0
    × ((get_agent_with_uid played.0 42 ≡ some 0)
        ↔ ((get_agent played.0 (played.0.session 0).sid ≡ some 0) × (uid_of played.0 0 ≡ 42)))
Reach-IsCoherent_example = Reach-IsCoherent 42 0 played.1 (omega arith)

-- A gate that listens on port 9000 only.
abbrev gate_parser : Parser Agents ℕ
gate_parser = new_net_parser 9000 0 1

parser_starts :
    ((Parser.init (some both_open) gate_parser).0 ≡ ok tt)
    × (map (λ c. start c.1) (on_after_init 7 gate_parser).connectors ≡ ok 7 ∷ ok 7 ∷ [])
unfolding Parser.init on_after_init new_net_parser
parser_starts = (refl, refl)
