-- ===== src/Discovery/Etcd/Load/Self.antt =====
-- A node that Load of discovery_etcd.go has registered is among the members that it knows.
use Prim.Native.String.{◌++◌}
use mathlib.Core.List.{Memᴰ}
use xgame.Common.{ℕ, ◌≡◌, String, List, string_eq}
use xgame.Common.Map
use xgame.Go.{ok}
use xgame.Discovery.{Discovery}
use xgame.Discovery.Etcd.Load.{Client, Etcd}

-- What is assumed of etcd: the Get of a prefix behind a Put of a key with this prefix, with no other call in between,
-- gives the value among its answers.
pub record IsStore {C : Type 0} (client : Client C) : Type 0 where
  pub put_seen :
      (prefix id : String) (v : List ℕ) (lease : ℕ) (c : C) (vs : List (List ℕ))
      → (client.put (prefix ++ id) v lease c).0 ≡ ok tt
      → (client.get_prefix prefix (client.put (prefix ++ id) v lease c).1).0 ≡ ok vs
      → Memᴰ v vs
