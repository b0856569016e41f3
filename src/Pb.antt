-- ===== src/Pb.antt =====
-- pb: the generated message types that the framework itself reads and writes. The wire format, the
-- reflection tables and the nil-safe getters are generated, and enter as the interface `Proto`.
use xgame.Common.{ℕ, String, List}
use xgame.Go.{Result}

-- pb.MsgCommon
pub record MsgCommon : Type 0 where
  pub source_id : String
  pub target_id : String
  pub mid : ℕ  -- uint32
  pub sid : String
  pub uid : ℕ  -- uint64
  pub route : ℕ  -- uint32

-- pb.Session
pub record Session : Type 0 where
  pub sid : String
  pub uid : ℕ  -- uint64
  pub ip : String

-- pb.Member
pub record Member : Type 0 where
  pub node_id : String
  pub node_type : String
  pub address : String

-- The zero value of MsgCommon, which `&pb.MsgCommon{...}` starts from.
abbrev pub no_common : MsgCommon
no_common = record { source_id = ""; target_id = ""; mid = 0; sid = ""; uid = 0; route = 0 }

-- google.golang.org/protobuf, over the message types `T` and the messages `M`.
pub record Proto (T M : Type 0) : Type 0 where
  -- msg.ProtoReflect().Type()
  pub type_of : M → T
  -- proto.MessageName(msg), Descriptor().FullName()
  pub full_name : T → String
  -- proto.Marshal of a message, and of a MsgCommon
  pub marshal : M → Result (List ℕ)
  pub marshal_common : MsgCommon → Result (List ℕ)
  -- proto.Unmarshal into a new message of the type, and into a new MsgCommon
  pub unmarshal : T → List ℕ → Result M
  pub unmarshal_common : List ℕ → Result MsgCommon
