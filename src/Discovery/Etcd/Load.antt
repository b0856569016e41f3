-- ===== src/Discovery/Etcd/Load.antt =====
-- Load and OnStop of discovery_etcd.go, over the calls of the client of etcd, which is a parameter. log.Fatal ends
-- the process, and is a panic here.
pub mod Own
pub mod Self
use Prim.Native.String.{◌++◌}
use xgame.Common.{ℕ, Option, none, some, String, List, [], ◌∷◌}
use xgame.Go.{Result, ok, err, panic, Exec, ◌>>=◌, ◌>>◌, pure, lift}
use xgame.Go.Fmt.{text, sprintf}
use xgame.Pb.{Member}
use xgame.Discovery.{Discovery, pre_init}
use xgame.Discovery.Etcd.{key_prefix, add_values}

-- The calls of the client, in the namespace of the project. `C` is what they change.
pub record Client (C : Type 0) : Type 0 where
  pub connect : Exec C (Unit {0})  -- clientv3.New
  pub grant : ℕ → Exec C ℕ  -- Grant, with the id of the lease
  pub keep_alive : ℕ → Exec C (Unit {0})
  pub put : String → List ℕ → ℕ → Exec C (Unit {0})  -- Put of a key and a value with a lease
  pub get_prefix : String → Exec C (List (List ℕ))  -- Get WithPrefix: the values
  pub delete : String → Exec C (Unit {0})
  pub close : Exec C (Unit {0})

-- What Load reads of the application.
pub record Node : Type 0 where
  pub node_id : String
  pub node_type : String
  pub project : String

-- ETCD
pub record Etcd (C : Type 0) : Type 0 where
  pub client : C
  pub discovery : Discovery
  pub ttl : ℕ
  pub lease_id : ℕ

fatal_of : {A : Type 0} → Result A → Result A
fatal_of (ok a) = ok a
fatal_of (err e) = panic e.message
fatal_of (panic x) = panic x

-- The key of a node, by registerKeyFormat.
unfoldable pub register_key : Node → String
register_key node = sprintf (key_prefix node.project ++ "%s") (text node.node_id ∷ [])

abbrev pub own_member : Node → Member
own_member node = record { node_id = node.node_id; node_type = node.node_type; address = "" }

module _ {C : Type 0} where
  -- A call of the client of which an error is fatal.
  unfoldable pub must : {A : Type 0} → Exec C A → Exec (Etcd C) A
  unfolding fatal_of
  must f s = let (r, c) = f s.client in (fatal_of r, record s { client = c })

  abbrev put_ttl : ℕ → Exec (Etcd C) (Unit {0})
  put_ttl ttl s = (ok tt, record s { ttl = ttl })

  abbrev put_lease : ℕ → Exec (Etcd C) (Unit {0})
  put_lease id s = (ok tt, record s { lease_id = id })

  abbrev pub put_discovery : Discovery → Exec (Etcd C) (Unit {0})
  put_discovery n s = (ok tt, record s { discovery = n })

  -- getLeaseId, without the goroutine that it starts
  unfoldable pub get_lease_id : Client C → Exec (Etcd C) (Unit {0})
  get_lease_id client s =
      (do id ← must (client.grant s.ttl); put_lease id; must (client.keep_alive id)) s

  -- register
  unfoldable pub register_own :
      Client C → (Member → Result (List ℕ)) → Node → Exec (Etcd C) (Unit {0})
  unfolding fatal_of
  register_own client marshal node s =
      (do
        value ← lift (fatal_of (marshal (own_member node)))
        must (client.put (register_key node) value s.lease_id))
        s

  add_found_values : (List ℕ → Option Member) → String → List (List ℕ) → Exec (Etcd C) (Unit {0})
  unfolding add_values
  add_found_values unmarshal project values s =
      (ok tt, record s { discovery = add_values unmarshal project values s.discovery })

  -- watch up to its goroutine
  unfoldable pub list_members :
      Client C → (List ℕ → Option Member) → String → Exec (Etcd C) (Unit {0})
  unfolding add_found_values
  list_members client unmarshal project = do
    values ← must (client.get_prefix (key_prefix project))
    add_found_values unmarshal project values

  -- Load
  unfoldable pub load :
      Client C
      → (Member → Result (List ℕ))
      → (List ℕ → Option Member)
      → Node
      → Exec (Etcd C) (Unit {0})
  load client marshal unmarshal node = do
    put_discovery pre_init
    put_ttl 10
    must client.connect
    get_lease_id client
    register_own client marshal node
    list_members client unmarshal node.project

  -- OnStop; errors are only logged.
  unfoldable pub on_stop : Client C → Node → C → C
  on_stop client node c = (client.close (client.delete (register_key node) c).1).1
