-- ===== src/Cluster/Handlers/Typing.antt =====
-- The functions of ListenMsg are called through reflection: reflect.Value.Call panics when the message is not of the
-- type of their second argument. msg_handler.go, the receive loop of cluster.go and hash.go together.
use mathlib.Core.List.{Memᴰ}
use mathlib.Core.List.Memᴰ
use xgame.Common.{
  ℕ, ℕ_eq, ◌≡◌, refl, sym, ap, ◌∙◌, subst, inl, inr, Bool-cases, Option, none, some, List, Eq,
  if◌then◌else◌, arith, nat_eq, nat_eq_iff,
}
use xgame.Common.Map
use xgame.Common.Map.{get-empty, get-put}
use xgame.Go.{Result, ok, err, panic}
use xgame.Pb.{MsgCommon, Proto}
use xgame.Packet.Registry.{Registry, register_message, type_hash, message_type}
use xgame.Packet.Registry.Consistency.{IsConsistent, register-IsConsistent}
use xgame.Packet.Registry.Outcomes.{register_outcome, register_keeps}
use xgame.Packet.Codec.{read_message}
use xgame.Packet.Codec.Framing.{reader}
use xgame.Packet.Codec.Typed.{IsTypeSafe, read_message-typed}
use xgame.Cluster.Handlers.Listening.{file-ok}
use xgame.Cluster.Handlers.{
  Handler, listener, response, unregistered, Callback, Receiver, new_receiver, set_default_handler,
  handler_found, handler_of, file, register_response, listen_msg, received, process,
}

module _ {T M L : Type 0} ⦃e : Eq T⦄ (p : Proto T M) (takes : L → Option T) where
  -- Whether a handler can be called with a message of a type; `takes` is the type of a function's second argument, and
  -- `none` for one that takes any message.
  pub data Accepts : Handler L → T → Type 0 where
    its_type : {f : L} {t : T} → takes f ≡ some t → Accepts (listener f) t
    any_type : {f : L} {t : T} → takes f ≡ none → Accepts (listener f) t
    as_response : {t : T} → Accepts response t
    logged : {t : T} → Accepts unregistered t

  -- What reflection tells of a function is so.
  pub record IsDescribed (cbk : Callback M L) : Type 0 where
    pub own : takes cbk.function ≡ some (p.type_of cbk.message)

  -- The calls that a node makes, and those of RegisterMessage and PackMessage by others.
  pub data Step (b : Receiver T M L) : Receiver T M L → Type 0 where
    listen : (cbk : Callback M L) → IsDescribed cbk → Step b (listen_msg p cbk b).1
    answer : (m : M) → Step b (register_response p m b).1
    default : (f : L) → takes f ≡ none → Step b (set_default_handler f b)
    register : (m : Option M) → Step b (record b { registry = (register_message p m b.registry).1 })
    receive : (bytes : List ℕ) → Step b (process p bytes b).1

  pub data Reach (reg : Registry T) : Receiver T M L → Type 0 where
    init : Reach reg (new_receiver reg)
    next : {b c : Receiver T M L} → Reach reg b → Step b c → Reach reg c

  record IsTyped (b : Receiver T M L) : Type 0 where
    consistent : IsConsistent p b.registry
    filed :
        (id : ℕ) (h : Handler L)
        → Map.get b.req_handlers id ≡ some h
        → (t : T) × (message_type b.registry id ≡ some t) × Accepts h t
    otherwise : (t : T) → Accepts b.default_handler t
    called :
        (h : Handler L) (c : MsgCommon) (m : M)
        → Memᴰ (h, (c, m)) b.posted
        → Accepts h (p.type_of m)

  register-IsTyped :
      (m : Option M) (b : Receiver T M L)
      → IsTyped b
      → IsTyped (record b { registry = (register_message p m b.registry).1 })
  register-IsTyped m b k = record {
    consistent = register-IsConsistent p m b.registry k.consistent;
    filed = λ id h found.
        let (t, known, accepts) = k.filed id h found in
        (t, register_keeps p m b.registry id t known, accepts);
    otherwise = k.otherwise;
    called = k.called;
  }

  put-filed :
      (h : Handler L) (m : M) (b : Receiver T M L)
      → let id = type_hash p (p.type_of m) in
        let reg = (register_message p (some m) b.registry).1 in
        IsTyped (record b { registry = reg })
        → message_type reg id ≡ some (p.type_of m)
        → Accepts h (p.type_of m)
        → (i : ℕ) (g : Handler L) → Map.get (Map.put b.req_handlers id h) i ≡ some g
        → (t : T) × (message_type reg i ≡ some t) × Accepts g t
  put-filed h m b k known accepts i g found =
      let id = type_hash p (p.type_of m) in
      let there : (if nat_eq id i then some h else Map.get b.req_handlers i) ≡ some g =
        sym (get-put b.req_handlers id i h) ∙ found in
      elim (Bool-cases (nat_eq id i)) [
        | inl same ↦
            let q : id ≡ i = (nat_eq_iff id i).0 same in
            (
              p.type_of m,
              subst
                  (λ x.
                    message_type (register_message p (some m) b.registry).1 x ≡ some (p.type_of m))
                  q known,
              subst (λ x. Accepts x (p.type_of m)) (ground (arith, there, same)) accepts,
            )
        | inr other ↦ k.filed i g (ground (arith, there, other))
      ]

  file-IsTyped :
      (h : Handler L) (m : M) (b : Receiver T M L)
      → IsTyped b
      → Accepts h (p.type_of m)
      → IsTyped (file p h (register_message p (some m) b.registry) b).1
  file-IsTyped h m b k accepts =
      let later = register-IsTyped (some m) b k in
      let x = register_message p (some m) b.registry in
      elim (register_outcome p m b.registry k.consistent) [
        | inl (_, done, registered) ↦
            subst IsTyped (sym (ap (λ y. y.1) (file-ok p h x (type_hash p (p.type_of m)) b done)))
              (record {
                consistent = later.consistent;
                filed = put-filed h m b later registered.by_id accepts;
                otherwise = later.otherwise;
                called = later.called;
              })
        | inr (u, known, other, refused) ↦
            subst (λ y. IsTyped (file p h y b).1) (sym refused) (unfold file in k)
      ]

  handler_found-Accepts :
      (b : Receiver T M L) (route : ℕ) (t : T) (o : Option (Handler L))
      → IsTyped b
      → message_type b.registry route ≡ some t
      → Map.get b.req_handlers route ≡ o
      → Accepts (handler_found o b) t
  unfolding handler_found
  handler_found-Accepts b route t none k known found = k.otherwise t
  handler_found-Accepts b route t (some h) k known found =
      let (u, known', accepts) = k.filed route h found in
      subst (λ x. Accepts h x) (ground (arith, known, known')) accepts

  post-IsTyped :
      (b : Receiver T M L) (c : MsgCommon) (m : M)
      → IsTyped b
      → message_type b.registry c.route ≡ some (p.type_of m)
      → IsTyped (received p (ok (c, m)) b).1
  unfolding received handler_of
  post-IsTyped b c m k known = record {
    consistent = k.consistent;
    filed = k.filed;
    otherwise = k.otherwise;
    called = λ h c' m' mem. elim (Memᴰ.append_cases b.posted mem) [
      | inl before ↦ k.called h c' m' before
      | inr (Memᴰ.head q) ↦
          let found : h ≡ handler_of b c.route = ap (λ (x : Handler L × (MsgCommon × M)). x.0) q in
          let same : m' ≡ m = ap (λ (x : Handler L × (MsgCommon × M)). x.1.1) q in
          subst (λ x. Accepts x (p.type_of m')) (sym found)
            (subst (λ x. Accepts (handler_of b c.route) (p.type_of x)) (sym same)
              (handler_found-Accepts b c.route (p.type_of m) (Map.get b.req_handlers c.route) k
                known refl))
      | inr (Memᴰ.tail none_left) ↦ elim none_left [ ]
    ];
  }

  received-IsTyped :
      (b : Receiver T M L) (r : Result (MsgCommon × M))
      → IsTyped b
      → ((c : MsgCommon) (m : M)
          → r ≡ ok (c, m)
          → message_type b.registry c.route ≡ some (p.type_of m))
      → IsTyped (received p r b).1
  unfolding received
  received-IsTyped b (ok (c, m)) k typed = post-IsTyped b c m k (typed c m refl)
  received-IsTyped b (err x) k typed = k
  received-IsTyped b (panic x) k typed = k

  step-IsTyped : IsTypeSafe p → {b c : Receiver T M L} → Step b c → IsTyped b → IsTyped c
  unfolding register_response listen_msg process
  step-IsTyped safe {b} (listen cbk told) k = elim (Bool-cases cbk.is_func) [
    | inr no_func ↦ simp no_func k
    | inl func ↦ elim (Bool-cases (nat_eq cbk.num_in 2)) [
      | inr no_two ↦ simp (func, no_two) k
      | inl two ↦ elim (Bool-cases cbk.takes_sender) [
        | inr no_sender ↦ simp (func, two, no_sender) k
        | inl sender ↦
            simp (func, two, sender)
              (file-IsTyped (listener cbk.function) cbk.message b k (its_type told.own))
      ]
    ]
  ]
  step-IsTyped safe {b} (answer m) k = file-IsTyped response m b k as_response
  step-IsTyped safe (default f any) k = record {
    consistent = k.consistent;
    filed = k.filed;
    otherwise = λ t. any_type any;
    called = k.called;
  }
  step-IsTyped safe {b} (register m) k = register-IsTyped m b k
  step-IsTyped safe {b} (receive bytes) k =
      received-IsTyped b (read_message p b.registry (reader bytes none)).0 k
        (λ c m h. read_message-typed p safe b.registry (reader bytes none) c m h)

  new-IsTyped : (reg : Registry T) → IsConsistent p reg → IsTyped (new_receiver reg)
  new-IsTyped reg k = record {
    consistent = k;
    filed = λ id h found. cc (get-empty {V = Handler L} id);
    otherwise = λ t. logged;
    called = λ h c m mem. elim mem [ ];
  }

  reach-IsTyped :
      IsTypeSafe p
      → {reg : Registry T} {b : Receiver T M L} → IsConsistent p reg
      → Reach reg b
      → IsTyped b
  reach-IsTyped safe {reg} k init = new-IsTyped reg k
  reach-IsTyped safe k (next r s) = step-IsTyped safe s (reach-IsTyped safe k r)

  -- Whatever messages a node registers, whatever handlers it files, in whatever order, and whatever bytes arrive, a
  -- function that is posted with a message can be called with it: a function of ListenMsg is posted only with messages
  -- of the type of its second argument, and every other handler takes any message. So the reflect.Value.Call of
  -- ListenMsg never panics. This is for a registry that was consistent at first, a protobuf that unmarshals into the
  -- type that it is given, and functions of SetDefaultHandler that take any message.
  pub handlers_get_their_type :
      (safe : IsTypeSafe p) (reg : Registry T) (b : Receiver T M L)
      → IsConsistent p reg
      → Reach reg b
      → (h : Handler L) (c : MsgCommon) (m : M) → Memᴰ (h, (c, m)) b.posted
      → Accepts h (p.type_of m)
  handlers_get_their_type safe reg b k r = (reach-IsTyped safe k r).called
