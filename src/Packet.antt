-- ===== src/Packet.antt =====
-- The wire format of the inverter's dongle: bytes, checksum, requests and responses.
pub mod Bytes
pub mod Crc
pub mod Builder
pub mod Response
