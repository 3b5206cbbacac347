-- ===== src/UdpV3.antt =====
-- light_engine/outputs/udp_v3.py: the codec of multi-output node frames, their chunks and the clock
-- beacon, the packetizer, and the receiver that puts chunks together.
pub mod Frame
pub mod Packet
pub mod Chunk
pub mod Datagrams
pub mod Beacon
pub mod Sequence
pub mod Reassembler
pub mod Examples
