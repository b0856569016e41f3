-- ===== src/Gate/Login.antt =====
-- What gate.Run sets up before Startup, and what it leaves undone.
use xgame.Common.{
  ℕ_eq, string_eq, ◌≡◌, ◌⊎◌, refl, ap, ◌∙◌, inl, inr, true, false, Bool-cases, Option, none, some,
  String, [], ◌∷◌, Eq, Bool, if◌then◌else◌, arith, nat_eq_iff,
}
use xgame.Common.Map
use xgame.Go.{Result, ok, err, panic, continue, ◌>>◌}
use xgame.Go.Errors.{errorf}
use xgame.Go.Fmt.{text}
use xgame.Pb.{Proto}
use xgame.Packet.Registry.{hash, type_hash, message_type}
use xgame.Packet.Registry.Consistency.{IsConsistent}
use xgame.Profile.{ClusterCfg, NodeCfg, find_node}
use xgame.Application.{Application, Component, find, find_in, startup}
use xgame.Application.Node.{
  Services, Node, new_app_node, new_app_node_outcome, components_of, agents_component,
}
use xgame.Cluster.Handlers.{Receiver, listener, handler_of}
use xgame.Cluster.Handlers.Listening.{listening, listen_msg-ok, handler_of-listening}
use xgame.Xagent.Route.{RouteMgr, add_route, node_type_of, node_type_of-add_route}
use xgame.Gate.{
  Climsg, Gate, World, login_callback, route_found, route_message, listen_message, set_up, run,
  run_node, started,
}

-- The type of the login request.
abbrev pub login_type : {T M : Type 0} → Proto T M → Climsg M → T
login_type p pb = p.type_of pb.creq_login

add_route-new :
    (name typ : String) (rm : RouteMgr)
    → Map.get rm.route2node_typ (hash name) ≡ none
    → (add_route name typ rm).0 ≡ ok tt
unfolding add_route
add_route-new name typ rm fresh = ground (arith, fresh)

module _ {T M L : Type 0} ⦃e : Eq T⦄ (p : Proto T M) (pb : Climsg M) where
  -- Before: the routes have none for the login request, the registry is consistent and has no other type under the
  -- id of the login request.
  pub record IsNew (g : Gate T M L) : Type 0 where
    pub no_route : Map.get g.routes.route2node_typ (type_hash p (login_type p pb)) ≡ none
    pub consistent : IsConsistent p g.receiver.registry
    pub free :
        (u : T)
        → message_type g.receiver.registry (type_hash p (login_type p pb)) ≡ some u
        → u ≡ login_type p pb

  -- After: login requests of clients go to a gate, and those that arrive go to `f`, the onCReqLogin.
  pub record ServesLogins (f : L) (g : Gate T M L) : Type 0 where
    pub routed : node_type_of g.routes (type_hash p (login_type p pb)) ≡ "gate"
    pub listens : handler_of g.receiver (type_hash p (login_type p pb)) ≡ listener f
    pub knows :
        message_type g.receiver.registry (type_hash p (login_type p pb)) ≡ some (login_type p pb)

  route_found-ok :
      {C : Type 0} (c : C) (g : Gate T M L)
      → IsNew g
      → (routes : RouteMgr) × (route_found p pb (some c) g ≡ (ok tt, record g { routes = routes }))
        × (node_type_of routes (type_hash p (login_type p pb)) ≡ "gate")
  unfolding route_found
  route_found-ok c g new =
      let name = p.full_name (login_type p pb) in
      let done = add_route-new name "gate" g.routes new.no_route in
      (
        (add_route name "gate" g.routes).1,
        ap (λ r. (r, record g { routes = (add_route name "gate" g.routes).1 })) done,
        ground (
          arith,
          node_type_of-add_route name "gate" g.routes (hash name) done,
          nat_eq_iff (hash name) (hash name),
        ),
      )

  pub set_up-new :
      {S : Type 0} (app : Application S) (agents : Component S) (f : L) (g : Gate T M L)
      → find app "agents_manager" ≡ some agents
      → IsNew g
      → (g' : Gate T M L) × (set_up p pb app f g ≡ (ok tt, g'))
        × ServesLogins f g'
        × (g'.receiver ≡ listening p (login_callback p pb f) g.receiver)
  unfolding set_up route_message listen_message
  set_up-new {S} app agents f g found new =
      let (routes, done, routed) = route_found-ok agents g new in
      let cbk = login_callback p pb f in
      let (listens, registered) =
        listen_msg-ok p cbk g.receiver new.consistent
          (record { function = refl; two = refl; sender = refl }) new.free in
      (
        record { routes = routes; receiver = listening p cbk g.receiver },
        ap (λ (o : Option (Component S)). (route_found p pb o >> listen_message p pb f) g) found
            ∙ ap
                (λ (x : Result (Unit {0}) × Gate T M L).
                  continue x.0 (λ _. listen_message p pb f) x.1)
                done
            ∙ ap
                (λ (x : Result (Unit {0}) × Receiver T M L).
                  (x.0, record { routes = routes; receiver = x.1 }))
                listens,
        record {
          routed = routed;
          listens =
              handler_of-listening p cbk g.receiver (type_hash p (login_type p pb))
              ∙ ground (
                arith,
                nat_eq_iff (type_hash p (login_type p pb)) (type_hash p (login_type p pb)),
              );
          knows = registered.by_id;
        },
        refl,
      )

  set_up-no_agents :
      {S : Type 0} (app : Application S) (f : L) (g : Gate T M L)
      → find app "agents_manager" ≡ none
      → set_up p pb app f g
        ≡ (panic "interface conversion: facade.IComponent is nil, not *xagent.Agents", g)
  unfolding set_up route_message route_found
  set_up-no_agents app f g absent = simp absent refl

module _ {S : Type 0} where
  find_agents :
      (v : Services S) (gate : Bool) (app : Application S)
      → app.components ≡ components_of v gate
      → find app "agents_manager" ≡ (if gate then some (agents_component v) else none)
  unfolding find find_in
  find_agents v true app comps = ap (find_in "agents_manager") comps
  find_agents v false app comps = ap (find_in "agents_manager") comps

module _ {T M L W : Type 0} ⦃e : Eq T⦄ (p : Proto T M) (pb : Climsg M) where
  -- Run of an unknown node id returns an error. Run of a node that is not configured as a gate panics. Both change
  -- nothing. Run of a gate, where no route and no other type is set for the login request, runs Startup of the node
  -- that NewAppNode makes, with the routes and the handlers set up: login requests of clients are routed to a node of
  -- type "gate", those that arrive have onCReqLogin for their handler, and their type is registered.
  pub run_outcome :
      (wait : Application (World T M L W) × World T M L W
        → Application (World T M L W) × World T M L W)
      (v : Services (World T M L W)) (f : L) (conf : ClusterCfg) (id : String) (g : Gate T M L)
      (w : W)
      → IsNew p pb g
      → ((find_node conf id ≡ none)
          × (run p pb wait v f conf id (g, w)
              ≡ (err (errorf "[nodeId = %s] not found" (text id ∷ [])), (g, w))))
        ⊎ ((cfg : NodeCfg) × (find_node conf id ≡ some cfg)
            × (((cfg.is_gate ≡ false)
                  × (run p pb wait v f conf id (g, w) ≡ (
                    panic "interface conversion: facade.IComponent is nil, not *xagent.Agents",
                    (g, w),
                  )))
                ⊎ ((cfg.is_gate ≡ true)
                    × ((n : Node (World T M L W)) × (g' : Gate T M L) × (new_app_node v conf id
                          ≡ ok n)
                        × ServesLogins p pb f g'
                        × (run p pb wait v f conf id (g, w)
                            ≡ (let (r, s) = startup wait (n.app, (g', w)) in (r, s.1)))))))
  unfolding run run_node started
  run_outcome wait v f conf id g w new = elim (new_app_node_outcome v conf id) [
    | inl (absent, refused) ↦ inl (absent, simp refused refl)
    | inr (cfg, n, found, made, same, front, idle, comps, twice) ↦ inr (
      cfg,
      found,
      elim (Bool-cases cfg.is_gate) [
        | inr other ↦ inl (
          other,
          simp
              (
                made,
                set_up-no_agents p pb n.app f g
                    (find_agents v cfg.is_gate n.app comps ∙ ground (arith, other)),
              )
              refl,
        )
        | inl gate ↦
            let (g', done, serves, _) =
              set_up-new p pb n.app (agents_component v) f g
                (find_agents v cfg.is_gate n.app comps ∙ ground (arith, gate)) new in
            inr (
              gate,
              (
                n,
                g',
                made,
                serves,
                ap (λ x. run_node p pb wait f x (g, w)) made ∙ ap (started p pb wait n.app w) done,
              ),
            )
      ],
    )
  ]
