-- ===== src/UdpV2.antt =====
-- light_engine/outputs/udp_v2.py: the codec of one complete RGB frame for one ESP32 node. A packet
-- is the record of the dataclass; `post_init` is `__post_init__`, so a packet that Python can hold
-- is one that `post_init` passes. A packet's numbers are natural: `_require_uint` refuses the rest.
pub mod Codec
mod Examples
use light_belt.Prelude.{
  ℕ, ◌+◌, ◌*◌, Bool, true, Option, none, some, List, [], ◌∷◌, ◌++◌, ◌&&◌, ◌==◌, ltb, leb, not,
  length, take, drop, Result, ok, value_error, ◌>>=◌, ◌>>◌, require, caught, guard, and_then,
}
use light_belt.Prelude.Bits.{high_bits}
use light_belt.Wire.Struct.{Format, Fields, calcsize, pack, unpack}
use light_belt.Wire.Crc.{crc_length, with_crc, crc_matches}
use light_belt.Wire.Pixels.{
  Pixel, max_uint8, max_uint16, max_uint32, require_uint, pixels_to_payload, payload_to_pixels,
}

abbrev pub magic : ℕ
magic = 0x4C45

abbrev pub version : ℕ
version = 0x02

abbrev pub message_type_frame : ℕ
message_type_frame = 0x01

-- `flags & ~ALLOWED_FLAGS == 0`, where the allowed flags are the two lowest bits
abbrev pub allowed_flags : ℕ → Bool
allowed_flags flags = high_bits flags 2 == 0

-- ">HBBBBIHH"
abbrev pub header_format : Format
header_format = 2 ∷ 1 ∷ 1 ∷ 1 ∷ 1 ∷ 4 ∷ 2 ∷ 2 ∷ []

abbrev pub header_length : ℕ
header_length = calcsize header_format

pub record UdpV2Packet : Type 0 where
  pub digital_node_id : ℕ
  pub sequence : ℕ
  pub pixels : List Pixel
  pub flags : ℕ
  pub message_type : ℕ

unfoldable pub post_init : UdpV2Packet → Result (Unit {0})
post_init p = do
  require_uint p.digital_node_id max_uint8
  require (not (p.digital_node_id == 0)) value_error
  require_uint p.sequence max_uint32
  require_uint p.message_type max_uint8
  require_uint p.flags max_uint8
  require (allowed_flags p.flags) value_error
  require (leb (length p.pixels) max_uint16) value_error
  payload ← pixels_to_payload p.pixels
  require (leb (length payload) max_uint16) value_error
  ok tt

-- The values of the header for a payload of that length.
abbrev pub header_fields : UdpV2Packet → ℕ → Fields header_format
header_fields p payload_length = (
  magic,
  (
    version,
    (
      p.message_type,
      (p.digital_node_id, (p.flags, (p.sequence, (length p.pixels, (payload_length, tt))))),
    ),
  ),
)

unfoldable pub encode : UdpV2Packet → Result (List ℕ)
encode p = do
  payload ← pixels_to_payload p.pixels
  header ← pack header_format (header_fields p (length payload))
  with_crc (header ++ payload)

-- `expected is not None and value != expected` is refused.
abbrev pub expects : Option ℕ → ℕ → Bool
expects none value = true
expects (some wanted) value = value == wanted

-- `minimum is not None and value < minimum` is refused.
abbrev pub at_least : Option ℕ → ℕ → Bool
at_least none value = true
at_least (some minimum) value = not (ltb value minimum)

-- The constructor call, under `except ValueError: return None`.
unfoldable pub construct : UdpV2Packet → Option UdpV2Packet
construct p = caught (do post_init p; ok p)

-- `decode` from the unpacked header on.
unfoldable pub decode_body :
    List ℕ → Option ℕ → Option ℕ → Fields header_format → Option UdpV2Packet
decode_body bytes expected_node_id min_sequence
      (m, (v, (message_type, (node_id, (flags, (sequence, (pixel_count, (payload_length, _)))))))) =
    guard (m == magic && v == version) (
      guard (allowed_flags flags) (
        guard (expects expected_node_id node_id) (
          guard (at_least min_sequence sequence) (
            guard (payload_length == pixel_count * 3) (
              guard (length bytes == header_length + payload_length + crc_length) (
                guard (crc_matches bytes) (
                  construct (record {
                    digital_node_id = node_id;
                    sequence = sequence;
                    pixels = payload_to_pixels (take payload_length (drop header_length bytes));
                    flags = flags;
                    message_type = message_type;
                  }))))))))

unfoldable pub decode : List ℕ → Option ℕ → Option ℕ → ℕ → Option UdpV2Packet
decode bytes expected_node_id min_sequence max_udp_payload =
    guard (not (ltb (length bytes) (header_length + crc_length))) (
      guard (not (ltb max_udp_payload (length bytes))) (
        and_then (unpack header_format (take header_length bytes))
          (decode_body bytes expected_node_id min_sequence)))
