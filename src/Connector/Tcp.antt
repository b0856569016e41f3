-- ===== src/Connector/Tcp.antt =====
-- TCPConnector of framework/pkg/connector/tcp_connector.go, with GetListener and the goroutine of Connector.Start: how
-- an accepted connection comes to onConnectFunc. A step is one access to what the goroutines share. net and crypto/tls
-- are parameters: whether Accept on an open listener gives a connection or an error
-- is left to the environment.
pub mod InOrder
pub mod Served
use xgame.Common.{
  ℕ, ◌<◌, ◌≡◌, Bool, true, false, ◌||◌, Option, none, some, String, List, [], ◌∷◌, ◌++◌, length,
  string_eq, ◌==◌, if◌then◌else◌,
}
use xgame.Go.{Result, ok, err, panic}
use xgame.Connector.{Connector, Options, start}

module _ {A K : Type 0} where
  -- What GetListener does with the key pair of tls.LoadX509KeyPair; log.Fatalf ends the process.
  keyed : (K → Result A) → Result K → Result A
  keyed listen_tls (ok key) = listen_tls key
  keyed listen_tls (err x) = panic x.message
  keyed listen_tls (panic x) = panic x

  -- GetListener, over net.Listen, tls.LoadX509KeyPair and tls.Listen
  unfoldable pub get_listener :
      (String → Result A)
      → (String → String → Result K)
      → (String → K → Result A)
      → String
      → String
      → String
      → Result A
  unfolding keyed
  get_listener listen load listen_tls cert_file key_file address =
      if cert_file == "" || key_file == ""
      then listen address
      else keyed (listen_tls address) (load cert_file key_file)

-- Start up to its loop: the listener and the function that is called for each connection.
module _ {A F : Type 0} where
  with_func : A → Result F → Result (A × F)
  with_func listener (ok f) = ok (listener, f)
  with_func listener (err x) = err x
  with_func listener (panic x) = panic x

  listened : Connector F → Result A → Result (A × F)
  unfolding with_func
  listened c (ok listener) = with_func listener (start c)
  listened c (err x) = panic x.message
  listened c (panic x) = panic x

  unfoldable pub start_tcp :
      (String → String → String → Result A) → Options → Connector F → Result (A × F)
  unfolding listened
  start_tcp listener_of o c = listened c (listener_of o.cert_file o.key_file o.address)

-- Where the loop of Start stands: at its test, in Accept, in InChan with a connection, behind the loop.
pub data Acceptor (C : Type 0) : Type 0 where
  testing : Acceptor C
  accepting : Acceptor C
  in_chan : C → Acceptor C
  finished : Acceptor C

-- A TCPConnector behind `t.Connector.Start()`, and what has happened.
pub record Line (C : Type 0) : Type 0 where
  pub running : Bool
  pub listener_open : Bool
  pub size : ℕ  -- cap(connChan)
  pub conn_chan : List C
  pub acceptor : Acceptor C
  pub accepted : List C  -- what Accept has returned, in order
  pub called : List C  -- the calls of onConnectFunc, in order

-- As NewConnector and GetListener leave it.
abbrev pub new_line : {C : Type 0} → ℕ → Line C
new_line size = record {
  running = true;
  listener_open = true;
  size = size;
  conn_chan = [];
  acceptor = testing;
  accepted = [];
  called = [];
}

module _ {C : Type 0} where
  -- Stop, which first resets `running`, and then closes the listener.
  abbrev pub stop_running : Line C → Line C
  stop_running l = record l { running = false }

  abbrev pub without_listener : Line C → Line C
  without_listener l = record l { listener_open = false }

  pub data Step (l : Line C) : Line C → Type 0 where
    -- `for t.Running()`
    go_on : l.acceptor ≡ testing → l.running ≡ true → Step l (record l { acceptor = accepting })
    leave : l.acceptor ≡ testing → l.running ≡ false → Step l (record l { acceptor = finished })
    -- `listener.Accept()`, on an open listener a connection or an error, on a closed one an error; errors are logged
    accept :
        (c : C)
        → l.acceptor ≡ accepting
        → l.listener_open ≡ true
        → Step l (record l { acceptor = in_chan c; accepted = l.accepted ++ c ∷ [] })
    accept_error :
        l.acceptor ≡ accepting → l.listener_open ≡ true → Step l (record l { acceptor = testing })
    accept_closed :
        l.acceptor ≡ accepting → l.listener_open ≡ false → Step l (record l { acceptor = testing })
    -- InChan, which waits while the channel is full
    put :
        (c : C)
        → l.acceptor ≡ in_chan c
        → length l.conn_chan < l.size
        → Step l (record l { acceptor = testing; conn_chan = l.conn_chan ++ c ∷ [] })
    -- The goroutine of Connector.Start
    take :
        (c : C) (rest : List C)
        → l.conn_chan ≡ c ∷ rest
        → Step l (record l { conn_chan = rest; called = l.called ++ c ∷ [] })
    -- Stop
    stop : Step l (stop_running l)
    close_listener : l.running ≡ false → Step l (without_listener l)

  pub data Reach (size : ℕ) : Line C → Type 0 where
    init : Reach size (new_line size)
    next : {l m : Line C} → Reach size l → Step l m → Reach size m
