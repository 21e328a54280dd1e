-- ===== src/Server/Refine.antt =====
-- `processReadBuffer` against the protocol.
pub mod Relation
pub mod Playback
pub mod Cases
pub mod Packet
