-- ===== src/Wire.antt =====
-- Bytes on the wire: big-endian numbers, `struct` and the checksums.
pub mod Bytes
pub mod Struct
pub mod Crc
pub mod Pixels
