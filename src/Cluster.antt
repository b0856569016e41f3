-- ===== src/Cluster.antt =====
-- framework/pkg/cluster: messages between nodes over NATS. A connection takes a subject and bytes, and may
-- refuse them; whether it does is a parameter.
pub mod Callbacks
pub mod Sending
pub mod Handlers
pub mod Delivery
pub mod Connection
pub mod Rpc
pub mod Subject
pub mod InOrder
pub mod Membership
pub mod Waiting
use xgame.Common.{ℕ, ◌==◌, Bool, Option, none, some, String, List, [], ◌∷◌, ◌++◌, Eq, not}
use xgame.Go.{Result, ok, err, panic, Exec, ◌>>=◌, ◌>>◌, pure, lift, guard}
use xgame.Go.Errors.{Error, new, cluster_rpc_client_is_stop}
use xgame.Go.Fmt.{text, sprintf}
use xgame.Pb.{MsgCommon, Proto, no_common}
use xgame.Packet.Registry.{Registry}
use xgame.Packet.Codec.{pack_message}
use xgame.Discovery.{Discovery, get_type}
use Callbacks.{Requester, register_callback}

-- getRemoteSubject
unfoldable pub remote_subject : String → String → String → String
remote_subject node_prefix node_type node_id =
    sprintf "cherry.%s.remote.%s.%s" (text node_prefix ∷ text node_type ∷ text node_id ∷ [])

-- What a call reads of the application and of NATS, which other goroutines may change between calls.
pub record Site : Type 0 where
  pub node_id : String  -- app.GetNodeId()
  pub running : Bool  -- app.Running()
  pub discovery : Discovery  -- app.Discovery()
  pub refusal : String → List ℕ → Option Error  -- the error of Publish

-- What the calls change: the message types of the process, the callbacks, and what NATS has taken.
pub record Cluster (T H : Type 0) : Type 0 where
  pub registry : Registry T
  pub requester : Requester H
  pub published : List (String × List ℕ)

module _ {T H : Type 0} where
  published_or : Option Error → String → List ℕ → Exec (Cluster T H) (Unit {0})
  published_or (some e) subject bytes s = (err e, s)
  published_or none subject bytes s =
      (ok tt, record s { published = s.published ++ (subject, bytes) ∷ [] })

  -- natsConn.Publish
  unfoldable pub publish : Site → String → List ℕ → Exec (Cluster T H) (Unit {0})
  unfolding published_or
  publish site subject bytes = published_or (site.refusal subject bytes) subject bytes

  -- SendBytes
  unfoldable pub send_bytes : Site → String → List ℕ → Exec (Cluster T H) (Unit {0})
  send_bytes site node_id bytes = do
    guard site.running cluster_rpc_client_is_stop
    node_type ← lift (get_type site.discovery node_id)
    publish site (remote_subject "node" node_type node_id) bytes

  -- A call that changes the registry only.
  with_registry : {A : Type 0} → Exec (Registry T) A → Exec (Cluster T H) A
  with_registry f s = let (r, reg) = f s.registry in (r, record s { registry = reg })

  -- A call that changes the requester only and cannot fail.
  with_requester : {A : Type 0} → (Requester H → A × Requester H) → Exec (Cluster T H) A
  with_requester f s = let (a, q) = f s.requester in (ok a, record s { requester = q })

-- The select of requestWait: the answer, or `none` for the timeout.
waited : {M : Type 0} → Option M → Result M
waited none = err (new "request wait timeout")
waited (some response) = ok response

module _ {T M H : Type 0} ⦃e : Eq T⦄ (p : Proto T M) where
  -- packet.PackMessage
  unfoldable pub pack : MsgCommon → M → Exec (Cluster T H) (MsgCommon × List ℕ)
  unfolding with_registry
  pack common msg = with_registry (pack_message p common msg)

  -- PublishMsg
  unfoldable pub publish_msg : Site → String → M → Exec (Cluster T H) (Unit {0})
  publish_msg site node_id msg = do
    guard site.running cluster_rpc_client_is_stop
    node_type ← lift (get_type site.discovery node_id)
    packed ← pack (record no_common { source_id = site.node_id; target_id = node_id }) msg
    publish site (remote_subject "node" node_type node_id) packed.1

  -- requestAsync; `none` is the nil callback.
  unfoldable pub request_async : Site → String → M → Option H → Exec (Cluster T H) (Unit {0})
  unfolding with_requester
  request_async site node_id req cbk = do
    mid ← with_requester (register_callback cbk)
    packed ←
        pack (record no_common { source_id = site.node_id; target_id = node_id; mid = mid }) req
    send_bytes site node_id packed.1

  -- requestWait, with the callback that sends on its channel, and what comes first: the answer, or `none` for the
  -- timeout. The callback stays registered after a timeout.
  unfoldable pub request_wait : Site → String → M → H → Option M → Exec (Cluster T H) M
  unfolding with_requester waited
  request_wait site node_id req channel answer = do
    mid ← with_requester (register_callback (some channel))
    packed ←
        pack (record no_common { source_id = site.node_id; target_id = node_id; mid = mid }) req
    send_bytes site node_id packed.1
    lift (waited answer)

  -- facade.Sender.Resp, for a message that came with `common`. The errors that it logs come back here.
  unfoldable pub resp : Site → MsgCommon → M → Exec (Cluster T H) (Unit {0})
  resp site common msg = do
    packed ← pack (record common { source_id = common.target_id; target_id = common.source_id }) msg
    send_bytes site common.source_id packed.1
