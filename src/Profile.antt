-- ===== src/Profile.antt =====
-- framework/profile/profile.go: the configuration of the nodes. Reading it is a matter of encoding/json.
use mathlib.Core.List.{Memᴰ}
use xgame.Common.{
  ℕ, ◌≡◌, ◌≢◌, refl, Bool, Option, none, some, String, List, [], ◌∷◌, string_eq, ◌==◌,
  if◌then◌else◌, Bool-cases, inl, inr, ◌⊎◌, eq_iff, ap, arith,
}
use xgame.Common.Map.{Map}
use xgame.Go.{Result, ok, err, panic}
use xgame.Logger.{ZapConfig}

abbrev pub node_type_gate : String
node_type_gate = "gate"

-- NodeCfg
pub record NodeCfg : Type 0 where
  pub node_id : String  -- GetNodeId
  pub node_type : String  -- GetNodeType
  pub ports : Map String ℕ  -- GetListenPorts
  pub is_gate : Bool
  pub log : ZapConfig

-- ClusterCfg; of the configurations of etcd and NATS, what the repository reads
pub record ClusterCfg : Type 0 where
  pub project : String
  pub etcd_endpoints : List String
  pub nodes : List NodeCfg
  pub nats_address : String

-- The bytes of the file, when os.ReadFile returns no error.
parsed : (List ℕ → Result ClusterCfg) → Result (List ℕ) → Result ClusterCfg
parsed unmarshal (ok file_data) = unmarshal file_data
parsed unmarshal (err x) = err x
parsed unmarshal (panic x) = panic x

-- ParseProfile, over os.ReadFile and json.Unmarshal into a new ClusterCfg
unfoldable pub parse_profile :
    (String → Result (List ℕ)) → (List ℕ → Result ClusterCfg) → String → Result ClusterCfg
unfolding parsed
parse_profile read_file unmarshal path = parsed unmarshal (read_file path)

find_from : String → List NodeCfg → Option NodeCfg
find_from id [] = none
find_from id (node ∷ nodes) = if node.node_id == id then some node else find_from id nodes

-- FindNode: a copy of the first node with the id
unfoldable pub find_node : ClusterCfg → String → Option NodeCfg
unfolding find_from
find_node c id = find_from id c.nodes

find_from_outcome :
    (id : String) (nodes : List NodeCfg)
    → ((node : NodeCfg) × (find_from id nodes ≡ some node) × Memᴰ node nodes × (node.node_id ≡ id))
      ⊎ ((find_from id nodes ≡ none) × ((node : NodeCfg) → Memᴰ node nodes → node.node_id ≢ id))
unfolding find_from
find_from_outcome id [] = inr (refl, λ node h. elim h [ ])
find_from_outcome id (n ∷ nodes) = elim (Bool-cases (n.node_id == id)) [
  | inl same ↦ rw same (inl (n, refl, Memᴰ.head refl, (eq_iff n.node_id id).0 same))
  | inr other ↦ elim (find_from_outcome id nodes) [
    | inl (node, e, mem, named) ↦ rw other (inl (node, e, Memᴰ.tail mem, named))
    | inr (e, no_node) ↦ rw other (
        inr (
          e,
          λ node h. elim h [
            | Memᴰ.head q ↦ λ named.
                ground (arith, eq_iff n.node_id id, ap (λ (x : NodeCfg). x.node_id) q, named)
            | Memᴰ.tail mem ↦ no_node node mem
          ],
        ))
  ]
]

-- FindNode finds a configured node with the id whenever there is one, and finds none only when no configured
-- node has the id.
pub find_node_outcome :
    (c : ClusterCfg) (id : String)
    → ((node : NodeCfg) × (find_node c id ≡ some node) × Memᴰ node c.nodes × (node.node_id ≡ id))
      ⊎ ((find_node c id ≡ none) × ((node : NodeCfg) → Memᴰ node c.nodes → node.node_id ≢ id))
unfolding find_node
find_node_outcome c id = find_from_outcome id c.nodes
