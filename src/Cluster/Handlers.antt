-- ===== src/Cluster/Handlers.antt =====
-- framework/pkg/cluster/msg_handler.go and the receive loop of cluster.go: what is called for a message.
pub mod Listening
pub mod Typing
use xgame.Common.{ℕ, Bool, Option, none, some, List, [], ◌∷◌, ◌++◌, Eq, ℕ_eq, nat_eq, if◌then◌else◌}
use xgame.Common.Map
use xgame.Common.Map.{Map}
use xgame.Go.{Result, ok, err, panic, Exec, pure, ◌>>◌}
use xgame.Pb.{MsgCommon, Proto}
use xgame.Packet.Registry.{Registry, register_message}
use xgame.Packet.Codec.{read_message}
use xgame.Packet.Codec.Framing.{reader}

-- What is filed under a route: a function that was given to ListenMsg or to SetDefaultHandler, the function
-- of RegisterResponse, which runs the callback of the message's mid, or the default of NewMessageHandlerMgr,
-- which only logs.
pub data Handler (L : Type 0) : Type 0 where
  listener : L → Handler L
  response : Handler L
  unregistered : Handler L

-- What reflection tells of the argument of ListenMsg.
pub record Callback (M L : Type 0) : Type 0 where
  pub is_func : Bool
  pub num_in : ℕ
  pub takes_sender : Bool
  pub message : M  -- the nil message of its second argument
  pub function : L

-- The types of the process, the handlers, and what was posted to the worker, oldest first.
pub record Receiver (T M L : Type 0) : Type 0 where
  pub registry : Registry T
  pub default_handler : Handler L
  pub req_handlers : Map ℕ (Handler L)
  pub posted : List (Handler L × (MsgCommon × M))

module _ {T M L : Type 0} where
  -- NewMessageHandlerMgr
  abbrev pub new_receiver : Registry T → Receiver T M L
  new_receiver reg = record {
    registry = reg;
    default_handler = unregistered;
    req_handlers = Map.empty;
    posted = [];
  }

  -- setDefaultHandler
  abbrev pub set_default_handler : L → Receiver T M L → Receiver T M L
  set_default_handler f s = record s { default_handler = listener f }

  unfoldable pub handler_found : Option (Handler L) → Receiver T M L → Handler L
  handler_found (some h) s = h
  handler_found none s = s.default_handler

  -- Which handler a message with this route is posted with.
  unfoldable pub handler_of : Receiver T M L → ℕ → Handler L
  unfolding handler_found
  handler_of s route = handler_found (Map.get s.req_handlers route) s

module _ {T M L : Type 0} ⦃e : Eq T⦄ (p : Proto T M) where
  unfoldable pub file : Handler L → Result ℕ × Registry T → Exec (Receiver T M L) (Unit {0})
  file h (ok id, reg) s =
      (ok tt, record s { registry = reg; req_handlers = Map.put s.req_handlers id h })
  file h (err x, reg) s = (panic x.message, record s { registry = reg })
  file h (panic x, reg) s = (panic x, record s { registry = reg })

  -- RegisterResponse
  unfoldable pub register_response : M → Exec (Receiver T M L) (Unit {0})
  unfolding file
  register_response msg s = file response (register_message p (some msg) s.registry) s

  -- ListenMsg
  unfoldable pub listen_msg : Callback M L → Exec (Receiver T M L) (Unit {0})
  unfolding file
  listen_msg cbk s =
      if cbk.is_func
      then (if nat_eq cbk.num_in 2
          then (if cbk.takes_sender
              then file (listener cbk.function) (register_message p (some cbk.message) s.registry) s
              else (panic "cbk in 0 is not Sender", s))
          else (panic "cbk num in is not 2", s))
      else (panic "cbk is not func", s)

  unfoldable pub received : Result (MsgCommon × M) → Exec (Receiver T M L) (Unit {0})
  unfolding handler_of
  received (ok (common, msg)) s =
      (ok tt, record s { posted = s.posted ++ (handler_of s common.route, (common, msg)) ∷ [] })
  received (err x) s = (ok tt, s)
  received (panic x) s = (panic x, s)

  -- The function `process` of receive, for the bytes of a message of NATS.
  unfoldable pub process : List ℕ → Exec (Receiver T M L) (Unit {0})
  unfolding received
  process bytes s = received (read_message p s.registry (reader bytes none)).0 s

  -- The loop of receive, over the messages that NATS puts into the channel of the subscription.
  unfoldable pub receive : List (List ℕ) → Exec (Receiver T M L) (Unit {0})
  receive [] = pure tt
  receive (bytes ∷ rest) = process bytes >> receive rest
