-- ===== src/Discovery/Etcd/Live.antt =====
-- The members that the watch of discovery_etcd.go knows, against the keys that etcd holds.
use Prim.Native.String.{◌++◌}
use xgame.Common.{
  ℕ, ◌≡◌, ◌≢◌, refl, ◌∙◌, ap, Bool, true, false, not, ◌&&◌, ◌||◌, Option, some, Option-cases, inl,
  inr, String, List, [], ◌∷◌, map, string_eq, ◌==◌, is_some, eq_iff, arith,
}
use xgame.Common.Map
use xgame.Common.Map.{get-empty, get-put}
use xgame.Pb.{Member}
use xgame.Discovery.{Discovery, pre_init, add_member, add_found}
use xgame.Discovery.Etcd.{
  Event, put_event, delete_event, key_prefix, node_of_key, add_parsed, add_value, on_event,
  add_values, on_events, watch, delete_removes,
}

-- What the nodes do to their keys: a node puts its member under its key, and the key of a node goes, by its own
-- deletion or with its lease.
pub data Change : Type 0 where
  up : Member → Change
  down : String → Change

-- Whether etcd holds the key of a node.
abbrev pub alive : String → List Change → Bool → Bool
alive id [] b = b
alive id (up m ∷ cs) b = alive id cs (m.node_id == id || b)
alive id (down k ∷ cs) b = alive id cs (not (k == id) && b)

abbrev pub listed : String → List Member → Bool → Bool
listed id [] b = b
listed id (m ∷ ms) b = listed id ms (m.node_id == id || b)

abbrev pub knows : Discovery → String → Bool
knows n id = is_some (Map.get n.member_map id)

module _ (unmarshal : List ℕ → Option Member) (marshal : Member → List ℕ) (project : String) where
  -- The event of etcd for a change.
  abbrev pub event_of : Change → Event
  event_of (up m) = put_event (marshal m)
  event_of (down id) = delete_event (key_prefix project ++ id)

  -- json.Unmarshal reads what json.Marshal made of the members.
  abbrev pub Readable : List Member → Type 0
  Readable [] = Unit
  Readable (m ∷ ms) = (unmarshal (marshal m) ≡ some m) × Readable ms

  -- The members that come are readable, and the prefix of the keys does not occur in the ids of those that go.
  abbrev pub Clean : List Change → Type 0
  Clean [] = Unit
  Clean (up m ∷ cs) = (unmarshal (marshal m) ≡ some m) × Clean cs
  Clean (down id ∷ cs) = (node_of_key (key_prefix project) id ≡ id) × Clean cs

pub knows-add :
    (m : Member) (n : Discovery) (id : String)
    → knows (add_member m n) id ≡ (m.node_id == id || knows n id)
unfolding add_member
knows-add m n id = elim (Option-cases (Map.get n.member_map m.node_id)) [
  | inl fresh ↦
      rw (fresh, add_found) (ap is_some (get-put n.member_map m.node_id id m) ∙ ground arith)
  | inr (old, known) ↦
      rw (known, add_found)
        (ground (
          arith,
          known,
          λ (e : (m.node_id == id) ≡ true). ap (Map.get n.member_map) ((eq_iff m.node_id id).0 e),
        ))
]

module _ (unmarshal : List ℕ → Option Member) (marshal : Member → List ℕ) (project : String) where
  knows-value :
      (m : Member) (n : Discovery) (id : String)
      → unmarshal (marshal m) ≡ some m
      → knows (add_value unmarshal project (marshal m) n) id ≡ (m.node_id == id || knows n id)
  unfolding add_value
  knows-value m n id readable = rw (readable, add_parsed) (knows-add m n id)

  knows-values :
      (ms : List Member) (n : Discovery) (id : String)
      → Readable unmarshal marshal project ms
      → knows (add_values unmarshal project (map marshal ms) n) id ≡ listed id ms (knows n id)
  unfolding add_values
  knows-values [] n id readable = refl
  knows-values (m ∷ ms) n id readable =
      knows-values ms (add_value unmarshal project (marshal m) n) id readable.1
      ∙ ap (listed id ms) (knows-value m n id readable.0)

  knows-events :
      (cs : List Change) (n : Discovery) (id : String)
      → key_prefix project ≢ ""
      → Clean unmarshal marshal project cs
      → knows (on_events unmarshal project (map (event_of unmarshal marshal project) cs) n) id
        ≡ alive id cs (knows n id)
  unfolding on_events on_event
  knows-events [] n id named clean = refl
  knows-events (up m ∷ cs) n id named clean =
      knows-events cs (add_value unmarshal project (marshal m) n) id named clean.1
      ∙ ap (alive id cs) (knows-value m n id clean.0)
  knows-events (down k ∷ cs) n id named clean =
      knows-events cs (on_event unmarshal project (delete_event (key_prefix project ++ k)) n) id
        named clean.1
      ∙ ap (alive id cs)
          (ap is_some (delete_removes unmarshal project k id n named clean.0) ∙ ground arith)

  -- With a json.Unmarshal that reads back the members that json.Marshal wrote, and a key prefix that is not
  -- empty and does not occur in the ids of the nodes that go: after the watch has read the keys that etcd held
  -- and any changes since, a node is a member exactly when etcd holds its key.
  pub watch_refines :
      (ms : List Member) (cs : List Change) (id : String)
      → key_prefix project ≢ ""
      → Readable unmarshal marshal project ms
      → Clean unmarshal marshal project cs
      → is_some (
          Map.get
            (watch unmarshal project
              (map marshal ms)
              (map (event_of unmarshal marshal project) cs)
              pre_init).member_map
            id)
        ≡ alive id cs (listed id ms false)
  unfolding watch
  watch_refines ms cs id named readable clean =
      knows-events cs (add_values unmarshal project (map marshal ms) pre_init) id named clean
      ∙ ap (alive id cs) (
          knows-values ms pre_init id readable
          ∙ ap (listed id ms) (ap is_some (get-empty {V = Member} id)))
