-- ===== src/Packet/Registry.antt =====
-- framework/pkg/packet/hash.go: the registry of message types, keyed by the checksum of their names.
pub mod Consistency
pub mod Outcomes
use xgame.Common.{ℕ, String, Option, none, some, List, [], ◌∷◌, Eq, ℕ_eq, ◌==◌, if◌then◌else◌}
use xgame.Common.Map
use xgame.Common.Map.{Map}
use xgame.Go.{Result, ok, err, panic, Exec}
use xgame.Go.Errors.{new, errorf}
use xgame.Go.Fmt.{text, num, sprintf}
use xgame.Go.Crc32.{bytes_of, checksum_ieee}
use xgame.Pb.{Proto}

-- The three package variables under `rwMutex`.
pub record Registry (T : Type 0) : Type 0 where
  pub id_to_type : Map ℕ T
  pub type_to_id : Map T ℕ
  pub id_to_name : Map ℕ String

abbrev pub empty_registry : {T : Type 0} → Registry T
empty_registry = record { id_to_type = Map.empty; type_to_id = Map.empty; id_to_name = Map.empty }

-- crc32.ChecksumIEEE([]byte(msgName))
unfoldable pub hash : String → ℕ
hash name = checksum_ieee (bytes_of name)

module _ {T : Type 0} where
  -- MessageType and MessageName: a value and its `bool`.
  abbrev pub message_type : Registry T → ℕ → Option T
  message_type r id = Map.get r.id_to_type id

  abbrev pub message_name : Registry T → ℕ → Option String
  message_name r id = Map.get r.id_to_name id

-- MessageID
abbrev pub message_id : {T : Type 0} ⦃e : Eq T⦄ → Registry T → T → Option ℕ
message_id r t = Map.get r.type_to_id t

module _ {T M : Type 0} ⦃e : Eq T⦄ (p : Proto T M) where
  abbrev pub type_hash : T → ℕ
  type_hash t = hash (p.full_name t)

  unfoldable pub conflict : T → T → Result ℕ
  conflict old t = panic (sprintf "哈希冲突 %s %s" (text (p.full_name old) ∷ text (p.full_name t) ∷ []))

  -- What RegisterMessage does with the type registered under the same id, if there is one.
  register_found : Option T → T → Exec (Registry T) ℕ
  unfolding conflict
  register_found (some old) t r = if old == t then (ok (type_hash t), r) else (conflict old t, r)
  register_found none t r = (
    ok (type_hash t),
    record {
      id_to_type = Map.put r.id_to_type (type_hash t) t;
      type_to_id = Map.put r.type_to_id t (type_hash t);
      id_to_name = Map.put r.id_to_name (type_hash t) (p.full_name t);
    },
  )

  -- RegisterMessage; `none` is the nil interface.
  unfoldable pub register_message : Option M → Exec (Registry T) ℕ
  unfolding register_found
  register_message none r = (err (new "msg is nil"), r)
  register_message (some m) r =
      register_found (Map.get r.id_to_type (type_hash (p.type_of m))) (p.type_of m) r

  unmarshal_found : ℕ → Option T → List ℕ → Result M
  unmarshal_found id (some t) body = p.unmarshal t body
  unmarshal_found id none body = err (errorf "message %v not registered" (num id ∷ []))

  -- OnUnmarshal
  unfoldable pub on_unmarshal : Registry T → ℕ → List ℕ → Result M
  unfolding unmarshal_found
  on_unmarshal r id body = unmarshal_found id (message_type r id) body

  -- The message with its id, as both calls of proto.Marshal in OnMarshal return it.
  with_id : ℕ → Result (List ℕ) → Result (ℕ × List ℕ)
  with_id id (ok body) = ok (id, body)
  with_id id (err e) = err e
  with_id id (panic x) = panic x

  -- The second test of OnMarshal, on what RegisterMessage returned.
  marshal_registered : M → Result ℕ → Result (ℕ × List ℕ)
  unfolding with_id
  marshal_registered m (ok id) = with_id id (p.marshal m)
  marshal_registered m (err e) =
      err (errorf "message %v register failed" (text (p.full_name (p.type_of m)) ∷ []))
  marshal_registered m (panic x) = panic x

  marshal_found : Option ℕ → M → Exec (Registry T) (ℕ × List ℕ)
  unfolding with_id marshal_registered
  marshal_found (some id) m r = (with_id id (p.marshal m), r)
  marshal_found none m r =
      let (res, r') = register_message (some m) r in (marshal_registered m res, r')

  -- OnMarshal
  unfoldable pub on_marshal : M → Exec (Registry T) (ℕ × List ℕ)
  unfolding marshal_found
  on_marshal m r = marshal_found (message_id r (p.type_of m)) m r
