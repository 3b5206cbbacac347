-- ===== src/Rs485.antt =====
-- light_engine/outputs/rs485_v2.py: the fixed 16-byte RGB+CCT command and its stream parser.
pub mod Codec
pub mod Stream
pub mod Frames
mod Examples
use light_belt.Prelude.{
  ℕ, zero, suc, ◌+◌, ◌-◌, ◌*◌, ◌/◌, ◌%◌, ◌^◌, bit_xor, Bool, true, false, Option, none, some, List,
  [], ◌∷◌, ◌++◌, ◌&&◌, ◌==◌, ltb, leb, not, if◌then◌else◌, length, take, drop, get_or, Result, ok,
  value_error, ◌>>=◌, ◌>>◌, require, guard,
}
use light_belt.Prelude.Bits.{shr, low_bits, test_bit}
use light_belt.Wire.Pixels.{max_uint8, max_uint16, max_uint32, require_uint}

abbrev pub version : ℕ
version = 0x02

abbrev pub frame_length : ℕ
frame_length = 16

abbrev pub min_node_id : ℕ
min_node_id = 1

abbrev pub max_node_id : ℕ
max_node_id = 6

-- One round of the inner loop: `crc & 0x8000` chooses the branch.
abbrev crc16_step : ℕ → ℕ
crc16_step crc =
    if test_bit crc 15 then low_bits (bit_xor (crc * 2) 0x1021) 16 else low_bits (crc * 2) 16

crc16_rounds : ℕ → ℕ → ℕ
crc16_rounds zero crc = crc
crc16_rounds (suc n) crc = crc16_rounds n (crc16_step crc)

crc16_bytes : ℕ → List ℕ → ℕ
unfolding crc16_rounds
crc16_bytes crc [] = crc
crc16_bytes crc (byte ∷ bytes) = crc16_bytes (crc16_rounds 8 (bit_xor crc (byte * 2 ^ 8))) bytes

unfoldable pub crc16_ccitt_false : List ℕ → ℕ
unfolding crc16_bytes
crc16_ccitt_false bytes = crc16_bytes 0xFFFF bytes

pub record Rs485v2Packet : Type 0 where
  pub node_id : ℕ
  pub sequence : ℕ
  pub r : ℕ
  pub g : ℕ
  pub b : ℕ
  pub warm_white : ℕ
  pub cool_white : ℕ
  pub fade_ms : ℕ
  pub flags : ℕ
  pub command : ℕ

unfoldable pub post_init : Rs485v2Packet → Result (Unit {0})
post_init p = do
  require (leb min_node_id p.node_id && leb p.node_id max_node_id) value_error
  require_uint p.sequence max_uint32
  require_uint p.r max_uint8
  require_uint p.g max_uint8
  require_uint p.b max_uint8
  require_uint p.warm_white max_uint8
  require_uint p.cool_white max_uint8
  require_uint p.flags max_uint8
  require_uint p.command max_uint8
  require_uint p.fade_ms max_uint16

-- The 14 bytes before the checksum; only the low byte of the sequence is sent.
abbrev pub body : Rs485v2Packet → List ℕ
body p =
    0xA5
    ∷ 0x5A
    ∷ version
    ∷ p.command
    ∷ p.node_id
    ∷ low_bits p.sequence 8
    ∷ p.r
    ∷ p.g
    ∷ p.b
    ∷ p.warm_white
    ∷ p.cool_white
    ∷ low_bits (shr p.fade_ms 8) 8
    ∷ low_bits p.fade_ms 8
    ∷ p.flags
    ∷ []

unfoldable pub encode : Rs485v2Packet → List ℕ
encode p =
    let crc = crc16_ccitt_false (body p) in body p ++ (low_bits (shr crc 8) 8 ∷ low_bits crc 8 ∷ [])

-- `data[index]`, behind the test on the length.
abbrev pub byte_at : List ℕ → ℕ → ℕ
byte_at bytes index = get_or bytes index 0

-- `(high << 8) | low` on bytes
abbrev pub word_at : List ℕ → ℕ → ℕ
word_at bytes index = byte_at bytes index * 2 ^ 8 + byte_at bytes (index + 1)

abbrev pub expects : Option ℕ → ℕ → Bool
expects none value = true
expects (some wanted) value = value == wanted

-- The packet of the constructor call, whose checks repeat those before it; `rs485_decode_valid` in
-- Rs485/Codec shows that the call raises nothing.
abbrev pub packet_of : List ℕ → Rs485v2Packet
packet_of bytes = record {
  node_id = byte_at bytes 4;
  sequence = byte_at bytes 5;
  r = byte_at bytes 6;
  g = byte_at bytes 7;
  b = byte_at bytes 8;
  warm_white = byte_at bytes 9;
  cool_white = byte_at bytes 10;
  fade_ms = word_at bytes 11;
  flags = byte_at bytes 13;
  command = byte_at bytes 3;
}

unfoldable pub decode : List ℕ → Option ℕ → Option ℕ → Option Rs485v2Packet
decode bytes expected_node_id expected_command = guard (length bytes == frame_length) (
    guard (byte_at bytes 0 == 0xA5 && byte_at bytes 1 == 0x5A && byte_at bytes 2 == version) (
      guard (crc16_ccitt_false (take 14 bytes) == word_at bytes 14) (
        guard (expects expected_command (byte_at bytes 3)) (
          guard (expects expected_node_id (byte_at bytes 4)) (
            guard (leb min_node_id (byte_at bytes 4) && leb (byte_at bytes 4) max_node_id)
              (some (packet_of bytes)))))))

pub record StreamParser : Type 0 where
  pub buffer : List ℕ
  pub expected_node_id : Option ℕ
  pub max_buffer : ℕ
  pub valid_frames : ℕ
  pub invalid_frames : ℕ

-- `buffer.find(SYNC)`, with -1 as `none`.
unfoldable pub find_sync : List ℕ → Option ℕ
find_sync [] = none
find_sync (b ∷ []) = none
find_sync (b ∷ c ∷ bytes) =
    let rest = find_sync (c ∷ bytes) in
    if b == 0xA5 && c == 0x5A then some 0 else elim rest [ none ↦ none | some i ↦ some (suc i) ]

-- `if len(buffer) > max: buffer = buffer[-max:]`, where `buffer[-0:]` is the whole buffer.
abbrev pub trim : ℕ → List ℕ → List ℕ
trim limit buffer =
    if ltb limit (length buffer)
    then (if limit == 0 then buffer else drop (length buffer - limit) buffer)
    else buffer

-- One round of the loop on a buffer of a frame's length at least: the parser after it, the packet
-- that it found, and whether the loop goes on.
abbrev pub Round : Type 0
Round = StreamParser × Option Rs485v2Packet × Bool

unfoldable pub candidate : StreamParser → Option Rs485v2Packet → Round
candidate s none =
    (record s { buffer = drop 1 s.buffer; invalid_frames = s.invalid_frames + 1 }, none, true)
candidate s (some p) = (
  record s { buffer = drop frame_length s.buffer; valid_frames = s.valid_frames + 1 },
  some p,
  true,
)

unfoldable pub synced : StreamParser → Round
synced s =
    if ltb (length s.buffer) frame_length
    then (s, none, false)
    else candidate s (decode (take frame_length s.buffer) s.expected_node_id none)

unfoldable pub round : StreamParser → Round
round s = elim (find_sync s.buffer) [
  | none ↦ (record s { buffer = [] }, none, false)
  | some i ↦ synced (record s { buffer = drop i s.buffer })
]

abbrev pub add_found : Option Rs485v2Packet → List Rs485v2Packet → List Rs485v2Packet
add_found none packets = packets
add_found (some p) packets = packets ++ p ∷ []

-- The loop of `feed`; `none` means that the fuel ran out.
unfoldable pub parse :
    ℕ → StreamParser → List Rs485v2Packet → Option (StreamParser × List Rs485v2Packet)
parse zero s packets = none
parse (suc fuel) s packets =
    let (t, found, more) = round s in
    let rest = parse fuel t (add_found found packets) in
    if ltb (length s.buffer) frame_length
    then some (s, packets)
    else if more
    then rest
    else some (t, add_found found packets)

-- A round that goes on takes a byte at least off the buffer, so its length is enough fuel.
unfoldable pub feed : StreamParser → List ℕ → Option (StreamParser × List Rs485v2Packet)
feed s bytes =
    let buffer = trim s.max_buffer (s.buffer ++ bytes) in
    parse (suc (length buffer)) (record s { buffer = buffer }) []
