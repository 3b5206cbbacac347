-- ===== src/Rs485/Codec.antt =====
-- rs485_v2.py: the checksum's range, and the round trip of a command.
use light_belt.Prelude.{
  ℕ, zero, suc, ◌+◌, ◌*◌, ◌%◌, ◌^◌, ◌≤◌, ◌<◌, ◌≡◌, true, Option, some, List, [], ◌∷◌, arith,
  bit_xor, length, take, ok,
}
use light_belt.Wire.Bytes.{AreBytes}
use light_belt.Rs485.{
  Rs485v2Packet, crc16_step, crc16_rounds, crc16_bytes, crc16_ccitt_false, post_init, body, encode,
  byte_at, expects, packet_of, decode,
}

rounds-lt : (n crc : ℕ) → crc < 2 ^ 16 → crc16_rounds n crc < 2 ^ 16
unfolding crc16_rounds
rounds-lt zero crc h = h
rounds-lt (suc n) crc h = rounds-lt n (crc16_step crc) (ground arith)

eight_rounds-lt : (crc : ℕ) → crc16_rounds 8 crc < 2 ^ 16
unfolding crc16_rounds
eight_rounds-lt crc = rounds-lt 7 (crc16_step crc) (ground arith)

bytes-lt : (crc : ℕ) (bytes : List ℕ) → crc < 2 ^ 16 → crc16_bytes crc bytes < 2 ^ 16
unfolding crc16_bytes
bytes-lt crc [] h = h
bytes-lt crc (b ∷ bytes) h =
    bytes-lt (crc16_rounds 8 (bit_xor crc (b * 2 ^ 8))) bytes
      (eight_rounds-lt (bit_xor crc (b * 2 ^ 8)))

pub crc16-lt : (bytes : List ℕ) → crc16_ccitt_false bytes < 2 ^ 16
unfolding crc16_ccitt_false
crc16-lt bytes = bytes-lt 0xFFFF bytes (omega arith)

-- A command that its constructor accepts, for the node and with the command byte that the reader
-- expects, is decoded to itself, but for the sequence, of which the wire carries the low byte.
pub rs485_decode-encode :
    (p : Rs485v2Packet) (expected_node_id expected_command : Option ℕ)
    → post_init p ≡ ok tt
    → expects expected_node_id p.node_id ≡ true
    → expects expected_command p.command ≡ true
    → decode (encode p) expected_node_id expected_command
      ≡ some (record p { sequence = p.sequence % 256 })
unfolding decode encode post_init
rs485_decode-encode p expected_node_id expected_command h node command =
    rw (node, command) (ground (arith, crc16-lt (body p)))

byte_at-lt : (bytes : List ℕ) (i : ℕ) → AreBytes bytes → byte_at bytes i < 256
byte_at-lt [] i a = omega arith
byte_at-lt (b ∷ bytes) zero a = a.0
byte_at-lt (b ∷ bytes) (suc i) a = byte_at-lt bytes i a.1

-- What the tests of `decode` let through.
record Passed (bytes : List ℕ) (expected_node_id expected_command : Option ℕ) (p : Rs485v2Packet)
    : Type 0 where
  whole : length bytes ≡ 16
  synced : (byte_at bytes 0 ≡ 0xA5) × (byte_at bytes 1 ≡ 0x5A) × (byte_at bytes 2 ≡ 0x02)
  intact : crc16_ccitt_false (take 14 bytes) ≡ byte_at bytes 14 * 256 + byte_at bytes 15
  command : expects expected_command (byte_at bytes 3) ≡ true
  node : expects expected_node_id (byte_at bytes 4) ≡ true
  known : (1 ≤ byte_at bytes 4) × (byte_at bytes 4 ≤ 6)
  made : packet_of bytes ≡ p

decode→Passed :
    (bytes : List ℕ) (expected_node_id expected_command : Option ℕ) (p : Rs485v2Packet)
    → decode bytes expected_node_id expected_command ≡ some p
    → Passed bytes expected_node_id expected_command p
unfolding decode
decode→Passed bytes expected_node_id expected_command p h = ground arith

module _ (bytes : List ℕ) (a : AreBytes bytes) where
  packet_of-post_init :
      (1 ≤ byte_at bytes 4) → (byte_at bytes 4 ≤ 6) → post_init (packet_of bytes) ≡ ok tt
  unfolding post_init
  packet_of-post_init h k = ground (
    arith,
    byte_at-lt bytes 3 a,
    byte_at-lt bytes 5 a,
    byte_at-lt bytes 6 a,
    byte_at-lt bytes 7 a,
    byte_at-lt bytes 8 a,
    byte_at-lt bytes 9 a,
    byte_at-lt bytes 10 a,
    byte_at-lt bytes 11 a,
    byte_at-lt bytes 12 a,
    byte_at-lt bytes 13 a,
  )

-- A command that is decoded from bytes has the node and the command byte that the caller expects,
-- its checksum holds, and its values pass the constructor, so that `decode` raises nothing.
pub rs485_decode_valid :
    (bytes : List ℕ) (expected_node_id expected_command : Option ℕ) (p : Rs485v2Packet)
    → AreBytes bytes
    → decode bytes expected_node_id expected_command ≡ some p
    → (post_init p ≡ ok tt)
      × (expects expected_node_id p.node_id ≡ true)
      × (expects expected_command p.command ≡ true)
      × (crc16_ccitt_false (take 14 bytes) ≡ byte_at bytes 14 * 256 + byte_at bytes 15)
rs485_decode_valid bytes expected_node_id expected_command p a h =
    let d = decode→Passed bytes expected_node_id expected_command p h in
    rw (← d.made) (packet_of-post_init bytes a d.known.0 d.known.1, d.node, d.command, d.intact)
