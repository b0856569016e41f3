-- ===== src/Cluster/Connection.antt =====
-- framework/pkg/cluster/nats_conn.go, nats_subject.go and the start and stop of cluster.go: the connection to NATS.
-- nats.Connect and nats.DefaultURL are parameters.
use xgame.Common.{
  ℕ, Bool, true, false, Option, none, some, String, List, [], ◌∷◌, string_eq, ◌==◌, if◌then◌else◌,
}
use xgame.Go.{Result, ok, err, panic, Exec}
use xgame.Go.Errors.{Error}
use xgame.Cluster.{remote_subject}

-- NatsConn, with the address of its configuration.
pub record NatsConn : Type 0 where
  pub address : String
  pub running : Bool

-- NewNatsConn
unfoldable pub new_nats_conn : String → String → NatsConn
new_nats_conn default_url address = record {
  address = if address == "" then default_url else address;
  running = false;
}

-- The loop of Connect, over the errors of its attempts, `none` for one that succeeds: it retries until one
-- does, and the result is `none` while none has.
attempt : List (Option Error) → NatsConn → Option NatsConn
attempt [] c = none
attempt (some e ∷ rest) c = attempt rest c
attempt (none ∷ rest) c = some (record c { running = true })

-- Connect
unfoldable pub connect : List (Option Error) → NatsConn → Option NatsConn
unfolding attempt
connect attempts c = if c.running then some c else attempt attempts c

-- Close: the connection, and whether it has closed one.
unfoldable pub close_conn : NatsConn → Bool × NatsConn
close_conn c = if c.running then (true, record c { running = false }) else (false, c)

-- natsSubject: the channel of `capacity` messages, and whether it is closed.
pub record NatsSubject : Type 0 where
  pub subject : String
  pub capacity : ℕ
  pub subscribed : Bool
  pub closed : Bool

-- newNatsSubject
abbrev pub new_nats_subject : String → ℕ → NatsSubject
new_nats_subject subject size = record {
  subject = subject;
  capacity = size;
  subscribed = false;
  closed = false;
}

-- stop; an error of Unsubscribe is only logged. A second close of the channel panics.
unfoldable pub stop_subject : Exec NatsSubject (Unit {0})
stop_subject s =
    if s.closed
    then (panic "close of closed channel", record s { subscribed = false })
    else (ok tt, record s { subscribed = false; closed = true })

-- What newCluster makes of the profile and the node, beside the handlers.
pub record Links : Type 0 where
  pub prefix : String
  pub buffer_size : ℕ
  pub nats_conn : NatsConn
  pub nats_sub : NatsSubject

-- newCluster
unfoldable pub new_links : String → String → String → String → Links
new_links default_url address node_type node_id = record {
  prefix = "node";
  buffer_size = 1024;
  nats_conn = new_nats_conn default_url address;
  nats_sub = new_nats_subject (remote_subject "node" node_type node_id) 1024;
}

subscribed_links : Option Error → Links → Links
subscribed_links none l = record l { nats_sub = record l.nats_sub { subscribed = true } }
subscribed_links (some e) l = l

init_links : Option NatsConn → Option Error → Links → Option Links
unfolding subscribed_links
init_links none refusal l = none
init_links (some c) refusal l = some (subscribed_links refusal (record l { nats_conn = c }))

-- Init, and receive up to its loop: `refusal` is the error of ChanSubscribe. `none` while Connect retries.
unfoldable pub init_cluster : List (Option Error) → Option Error → Links → Option Links
unfolding init_links
init_cluster attempts refusal l = init_links (connect attempts l.nats_conn) refusal l

closed_links : Result (Unit {0}) × NatsSubject → Exec Links (Unit {0})
closed_links (ok x, sub) l =
    (ok tt, record l { nats_sub = sub; nats_conn = (close_conn l.nats_conn).1 })
closed_links (err x, sub) l = (err x, record l { nats_sub = sub })
closed_links (panic x, sub) l = (panic x, record l { nats_sub = sub })

-- Stop
unfoldable pub stop_cluster : Exec Links (Unit {0})
unfolding closed_links
stop_cluster l = closed_links (stop_subject l.nats_sub) l
