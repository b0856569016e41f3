-- ===== src/Discovery/Etcd.antt =====
-- framework/pkg/discovery/discovery_etcd.go: the members as the keys of etcd. The client of etcd gives the
-- events, and json.Unmarshal is a parameter.
pub mod Live
pub mod Load
use Prim.Native.Char.{Char, code}
use Prim.Native.String.{◌++◌}
use xgame.Common.{
  append_nil, append_cons, ℕ, zero, suc, ◌≡◌, ◌≢◌, refl, sym, ◌∙◌, ap, Bool, true, false, Option,
  none, some, String, List, [], ◌∷◌, string_eq, ◌==◌, if◌then◌else◌, arith, ◌&&◌, Option-cases, inl,
  inr, eq_iff, nat_eq, nat_eq_iff, ◌-◌,
}
use xgame.Common.Map
use xgame.Common.Map.{Map, get-put, get-remove}
use xgame.Go.Fmt.{text, sprintf}
use xgame.Pb.{Member}
use xgame.Discovery.{Discovery, pre_init, add_member, remove_member, remove_found}
use xgame.Discovery.Members.{IsKeyed, pre_init-IsKeyed, add_member-IsKeyed, remove_member-IsKeyed}

-- keyPrefix of Load, for a project
unfoldable pub key_prefix : String → String
key_prefix project = sprintf "/%s/node/" (text project ∷ [])

starts_with : String → String → Bool
starts_with String.[] s = true
starts_with (String.◌∷◌ c p) String.[] = false
starts_with (String.◌∷◌ c p) (String.◌∷◌ d s) = nat_eq (code c) (code d) && starts_with p s

size : String → ℕ
size String.[] = 0
size (String.◌∷◌ c s) = suc (size s)

-- strings.ReplaceAll(s, old, "") for an `old` that is not empty, with `n` characters left to skip.
remove_all : String → ℕ → String → String
unfolding starts_with size
remove_all old n String.[] = ""
remove_all old (suc n) (String.◌∷◌ c s) = remove_all old n s
remove_all old zero (String.◌∷◌ c s) =
    let gone = remove_all old (size old - 1) s in
    let rest = remove_all old zero s in
    if starts_with old (String.◌∷◌ c s) then gone else String.◌∷◌ c rest

-- What removeMember takes the node id to be, from the key.
unfoldable pub node_of_key : String → String → String
unfolding remove_all
node_of_key prefix key = remove_all prefix zero key

pub data Event : Type 0 where
  put_event : List ℕ → Event  -- mvccpb.PUT, with the value
  delete_event : String → Event  -- mvccpb.DELETE, with the key

module _ (unmarshal : List ℕ → Option Member) (project : String) where
  add_parsed : Option Member → Discovery → Discovery
  add_parsed none n = n
  add_parsed (some m) n = add_member m n

  -- addMember
  unfoldable pub add_value : List ℕ → Discovery → Discovery
  unfolding add_parsed
  add_value bytes n = add_parsed (unmarshal bytes) n

  -- removeMember; the warning for an empty id does not return.
  unfoldable pub remove_key : String → Discovery → Discovery
  remove_key key n = remove_member (node_of_key (key_prefix project) key) n

  -- The switch of watch.
  unfoldable pub on_event : Event → Discovery → Discovery
  on_event (put_event bytes) n = add_value bytes n
  on_event (delete_event key) n = remove_key key n

  unfoldable pub add_values : List (List ℕ) → Discovery → Discovery
  add_values [] n = n
  add_values (v ∷ vs) n = add_values vs (add_value v n)

  unfoldable pub on_events : List Event → Discovery → Discovery
  on_events [] n = n
  on_events (x ∷ xs) n = on_events xs (on_event x n)

  -- watch: the values under the prefix, and then the events, in order
  unfoldable pub watch : List (List ℕ) → List Event → Discovery → Discovery
  unfolding add_values
  watch values events n = on_events events (add_values values n)

starts_with-append : (p s : String) → starts_with p (p ++ s) ≡ true
unfolding starts_with
starts_with-append String.[] s = refl
starts_with-append (String.◌∷◌ c p) s =
    rw (append_cons c p s) (ground (arith, starts_with-append p s, nat_eq_iff (code c) (code c)))

remove_all-skip : (old p s : String) → remove_all old (size p) (p ++ s) ≡ remove_all old zero s
unfolding remove_all size
remove_all-skip old String.[] s = rw (append_nil s) refl
remove_all-skip old (String.◌∷◌ c p) s = rw (append_cons c p s) (remove_all-skip old p s)

pred_suc : (n : ℕ) → suc n - 1 ≡ n
pred_suc n = omega arith

-- A prefix in front is removed, and the search goes on behind it.
remove_all-prefix :
    (c : Char) (p s : String)
    → let old = String.◌∷◌ c p in remove_all old zero (old ++ s) ≡ remove_all old zero s
unfolding remove_all size
remove_all-prefix c p s =
    rw
      (
        append_cons c p s,
        (ap (starts_with (String.◌∷◌ c p)) (sym (append_cons c p s))
            ∙ starts_with-append (String.◌∷◌ c p) s),
      )
      (ap (λ k. remove_all (String.◌∷◌ c p) k (p ++ s)) (pred_suc (size p))
        ∙ remove_all-skip (String.◌∷◌ c p) p s)

node_of_key-prefix :
    (prefix id : String) → prefix ≢ "" → node_of_key prefix (prefix ++ id) ≡ node_of_key prefix id
unfolding node_of_key
node_of_key-prefix String.[] id h = absurd (h refl)
node_of_key-prefix (String.◌∷◌ c p) id h = remove_all-prefix c p id

removed_only :
    (id other : String) (n : Discovery)
    → Map.get (remove_member id n).member_map other
      ≡ (if id == other then none else Map.get n.member_map other)
unfolding remove_member
removed_only id other n = elim (Option-cases (Map.get n.member_map id)) [
  | inl absent ↦ rw (absent, remove_found) (ground (arith, absent, eq_iff id other))
  | inr (m, known) ↦ rw (known, remove_found) (get-remove n.member_map id other)
]

-- When the key of a node, the prefix and its id, is deleted, the node is no member any more and all others
-- are as before, if the prefix does not occur in the id itself.
pub delete_removes :
    (unmarshal : List ℕ → Option Member) (project id other : String) (n : Discovery)
    → key_prefix project ≢ ""
    → node_of_key (key_prefix project) id ≡ id
    → Map.get
        (on_event unmarshal project (delete_event (key_prefix project ++ id)) n).member_map
        other
      ≡ (if id == other then none else Map.get n.member_map other)
unfolding on_event remove_key remove_member
delete_removes unmarshal project id other n named clean =
    rw (node_of_key-prefix (key_prefix project) id named, clean) (removed_only id other n)

add_value-IsKeyed :
    (unmarshal : List ℕ → Option Member) (project : String) (bytes : List ℕ) (n : Discovery)
    → IsKeyed n
    → IsKeyed (add_value unmarshal project bytes n)
unfolding add_value
add_value-IsKeyed unmarshal project bytes n k = elim (Option-cases (unmarshal bytes)) [
  | inl bad ↦ rw (bad, add_parsed) k
  | inr (m, good) ↦ rw (good, add_parsed) (add_member-IsKeyed m n k)
]

on_event-IsKeyed :
    (unmarshal : List ℕ → Option Member) (project : String) (x : Event) (n : Discovery)
    → IsKeyed n
    → IsKeyed (on_event unmarshal project x n)
unfolding on_event remove_key
on_event-IsKeyed unmarshal project (put_event bytes) n k =
    add_value-IsKeyed unmarshal project bytes n k
on_event-IsKeyed unmarshal project (delete_event key) n k =
    remove_member-IsKeyed (node_of_key (key_prefix project) key) n k

on_events-IsKeyed :
    (unmarshal : List ℕ → Option Member) (project : String) (xs : List Event) (n : Discovery)
    → IsKeyed n
    → IsKeyed (on_events unmarshal project xs n)
unfolding on_events
on_events-IsKeyed unmarshal project [] n k = k
on_events-IsKeyed unmarshal project (x ∷ xs) n k =
    on_events-IsKeyed unmarshal project xs (on_event unmarshal project x n)
      (on_event-IsKeyed unmarshal project x n k)

add_values-IsKeyed :
    (unmarshal : List ℕ → Option Member) (project : String) (vs : List (List ℕ)) (n : Discovery)
    → IsKeyed n
    → IsKeyed (add_values unmarshal project vs n)
unfolding add_values
add_values-IsKeyed unmarshal project [] n k = k
add_values-IsKeyed unmarshal project (v ∷ vs) n k =
    add_values-IsKeyed unmarshal project vs (add_value unmarshal project v n)
      (add_value-IsKeyed unmarshal project v n k)

-- Whatever values and events etcd gives, in whatever order, readable or not, the watch leaves every member
-- stored under its own id, and every id once.
pub watch-IsKeyed :
    (unmarshal : List ℕ → Option Member) (project : String) (vs : List (List ℕ)) (xs : List Event)
    → IsKeyed (watch unmarshal project vs xs pre_init)
unfolding watch
watch-IsKeyed unmarshal project vs xs =
    on_events-IsKeyed unmarshal project xs (add_values unmarshal project vs pre_init)
      (add_values-IsKeyed unmarshal project vs pre_init pre_init-IsKeyed)
