-- ===== src/Packet.antt =====
-- framework/pkg/packet
pub mod Registry
pub mod Codec
