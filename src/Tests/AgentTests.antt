-- ===== src/Tests/AgentTests.antt =====
-- A run of framework/pkg/xagent/agent.go: one answer on its way to the client, and the end of the connection.
use xgame.Common.{suc, length, none, some, List, ◌++◌, ◌≡◌, refl, [], ◌∷◌, arith}
use xgame.Common.Map.{get, put, empty}
use xgame.Go.Crc32.{checksum_ieee, bytes_of}
use xgame.Packet.Registry.{Registry, hash, register_message, on_marshal}
use xgame.Packet.Codec.{pack_message, u16_bytes}
use xgame.Xagent.Agent.{
  Agent, Reach, init, next, close, after_pack, respond_open, respond_room, respond, take_pending,
  send_raw, take_write, close_outside, die_seen, close_process, close_last,
}
use xgame.Xagent.Agent.Deadlock.{IsStuck, writer_blocks}
use xgame.Go.{ok}
use xgame.Xagent.Agent.Writing.{IsOrderly, Reach-IsOrderly}
use xgame.Go.Errors.{packet_connect_closed}
use xgame.Pb.{MsgCommon}
use xgame.Packet.Codec.Framing.{reader}
use xgame.Packet.Codec.Loop.{Messages, read_loop, stopped}
use xgame.Packet.Codec.Stream.{Readable}
use xgame.Xagent.Agent.Client.{client_reads}
use xgame.Xagent.Agent.Client.Frames.{Framed, concat}
use xgame.Tests.Samples.{proto-IsLossless, Kind, kind_eq, Msg, proto, login, common}
use xgame.Tests.PacketTests.{one_type, one_type-IsConsistent, frame, request_id}

abbrev answered : (a : Agent Kind Msg) × Reach proto 64 one_type a × (a.written ≡ frame ∷ [])
unfolding after_pack pack_message on_marshal register_message hash checksum_ieee bytes_of get put
    empty u16_bytes close
answered = (
  _,
  next
      (next
        (next
          (next
            (next
              (next
                (next
                  (next
                    (next (next init (respond_open (common, login) refl))
                      (respond_room [] (common, login) [] refl (omega arith)))
                    (respond [] (common, login) [] refl (omega arith)))
                  (take_pending (common, login) [] refl refl))
                (send_raw frame refl (omega arith)))
              (take_write frame [] refl refl))
            close_outside)
          (die_seen refl refl))
        (close_process refl))
      (close_last refl),
  refl,
)

Reach-IsOrderly_example : IsOrderly answered.0
unfolding after_pack pack_message on_marshal register_message hash checksum_ieee bytes_of get put
    empty u16_bytes close
Reach-IsOrderly_example = Reach-IsOrderly proto answered.1

client_reads_example :
    (given : List (MsgCommon × Msg)) × (rest : List (MsgCommon × Msg)) × (sent : Messages proto)
    × (answered.0.accepted ≡ given ++ rest)
    × Framed proto given sent answered.0.written
    × ((client : Registry Kind)
        → Readable proto client sent
        → read_loop proto (suc (length sent)) client (reader (concat answered.0.written) none)
          ≡ some (sent, stopped packet_connect_closed))
unfolding after_pack pack_message on_marshal register_message hash checksum_ieee bytes_of get put
    empty u16_bytes close
client_reads_example =
    client_reads proto proto-IsLossless 64 one_type answered.0 one_type-IsConsistent answered.1

-- The type is registered, so packing leaves the registry as it is.
packs :
    pack_message proto common login one_type
    ≡ (ok (record common { route = request_id }, frame), one_type)
unfolding pack_message on_marshal register_message hash checksum_ieee bytes_of get put empty
    u16_bytes
packs = refl

writer_blocks_example : (a : Agent Kind Msg) × Reach proto 1 one_type a × IsStuck a
writer_blocks_example =
    writer_blocks proto one_type (common, login) (record common { route = request_id }) frame packs

abbrev blocked : Agent Kind Msg
blocked =
    (writer_blocks proto one_type (common, login) (record common { route = request_id }) frame
      packs).0

blocked-IsStuck : IsStuck blocked
blocked-IsStuck =
    (writer_blocks proto one_type (common, login) (record common { route = request_id }) frame
      packs).2
