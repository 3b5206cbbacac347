-- ===== src/UdpV3/Packet.antt =====
-- light_engine/outputs/udp_v3.py: `UdpV3Output` and `UdpV3Packet`. `output_post_init` and
-- `post_init` are the two `__post_init__`; a value that Python can hold is one that they pass.
-- `decode` walks the payload by a cursor; here the walk is over the bytes that are left of it.
pub mod Outputs
pub mod Encoded
pub mod Codec
pub mod Total
use light_belt.Prelude.{
  ℕ, zero, suc, ◌+◌, ◌*◌, ◌-◌, ◌≡◌, Bool, true, false, Option, none, some, List, [], ◌∷◌, ◌++◌, map,
  ◌&&◌, ◌==◌, ltb, leb, not, same, is_some, is_empty, if◌then◌else◌, length, All, take, drop,
  Result, ok, value_error, ◌>>=◌, ◌>>◌, require, caught, guard, and_then,
}
use light_belt.Prelude.Sets.{elem, distinct, same_set}
use light_belt.Wire.Struct.{Format, Fields, calcsize, pack, unpack}
use light_belt.Wire.Crc.{crc_length, with_crc, crc_matches}
use light_belt.Wire.Pixels.{
  Pixel, max_uint8, max_uint16, max_uint32, max_uint64, require_uint, pixels_to_payload,
  payload_to_pixels,
}
use light_belt.UdpV3.Frame.{
  magic, version, message_type_frame, allowed_flags, is_scheduled, header_format, header_length,
  apply_raw, apply_of, check_apply, schedule_agrees, expects,
}

-- ">BBHH"
abbrev pub output_format : Format
output_format = 1 ∷ 1 ∷ 2 ∷ 2 ∷ []

abbrev pub output_length : ℕ
output_length = calcsize output_format

pub record UdpV3Output : Type 0 where
  pub output_id : ℕ
  pub gpio : ℕ
  pub pixels : List Pixel

unfoldable pub output_post_init : UdpV3Output → Result (Unit {0})
output_post_init o = do
  require_uint o.output_id max_uint8
  require (not (o.output_id == 0)) value_error
  require_uint o.gpio max_uint8
  require (leb (length o.pixels) max_uint16) value_error
  _ ← pixels_to_payload o.pixels
  ok tt

pub record UdpV3Packet : Type 0 where
  pub digital_node_id : ℕ
  pub sequence : ℕ
  pub media_timestamp_us : ℕ
  pub outputs : List UdpV3Output
  pub apply_at_us : Option ℕ
  pub flags : ℕ
  pub message_type : ℕ

abbrev pub output_ids : List UdpV3Output → List ℕ
output_ids = map (λ (o : UdpV3Output). o.output_id)

abbrev pub gpios : List UdpV3Output → List ℕ
gpios = map (λ (o : UdpV3Output). o.gpio)

unfoldable pub post_init : UdpV3Packet → Result (Unit {0})
post_init p = do
  require_uint p.digital_node_id max_uint8
  require (not (p.digital_node_id == 0)) value_error
  require_uint p.sequence max_uint32
  require_uint p.media_timestamp_us max_uint64
  check_apply p.apply_at_us
  require_uint p.flags max_uint8
  require (allowed_flags p.flags) value_error
  require (schedule_agrees p.flags p.apply_at_us) value_error
  require_uint p.message_type max_uint8
  require (p.message_type == message_type_frame) value_error
  require (not (is_empty p.outputs) && leb (length p.outputs) 3) value_error
  require (distinct (output_ids p.outputs)) value_error
  require (distinct (gpios p.outputs)) value_error

-- A packet that Python can hold: its outputs were constructed, and so was the packet.
abbrev pub Constructed : UdpV3Packet → Type 0
Constructed p = All (λ o. output_post_init o ≡ ok tt) p.outputs × (post_init p ≡ ok tt)

abbrev pub output_fields : UdpV3Output → ℕ → Fields output_format
output_fields o rgb_length = (o.output_id, (o.gpio, (length o.pixels, (rgb_length, tt))))

-- The loop of `encode` over the outputs.
unfoldable pub encode_outputs : List UdpV3Output → Result (List ℕ)
encode_outputs [] = ok []
encode_outputs (o ∷ os) = do
  rgb ← pixels_to_payload o.pixels
  header ← pack output_format (output_fields o (length rgb))
  rest ← encode_outputs os
  ok (header ++ (rgb ++ rest))

abbrev pub header_fields : UdpV3Packet → ℕ → Fields header_format
header_fields p payload_length = (
  magic,
  (
    version,
    (
      p.message_type,
      (
        p.digital_node_id,
        (
          p.flags,
          (
            p.sequence,
            (
              p.media_timestamp_us,
              (apply_raw p.apply_at_us, (length p.outputs, (payload_length, tt))),
            ),
          ),
        ),
      ),
    ),
  ),
)

unfoldable pub encode : UdpV3Packet → Result (List ℕ)
encode p = do
  payload ← encode_outputs p.outputs
  require (leb (length payload) max_uint16) value_error
  header ← pack header_format (header_fields p (length payload))
  with_crc (header ++ payload)

-- `expected_outputs`: an id with its GPIO and its count of pixels, each id once.
abbrev pub Table : Type 0
Table = List (ℕ × ℕ × ℕ)

-- `expected_outputs.get(output_id) == (gpio, pixel_count)`
unfoldable pub table_has : Table → ℕ → ℕ → ℕ → Bool
table_has [] output_id gpio pixel_count = false
table_has ((i, g, n) ∷ rows) output_id gpio pixel_count =
    if i == output_id
    then g == gpio && n == pixel_count
    else table_has rows output_id gpio pixel_count

abbrev pub table_ids : Table → List ℕ
table_ids [] = []
table_ids ((i, g, n) ∷ rows) = i ∷ table_ids rows

abbrev pub output_expected : Option Table → ℕ → ℕ → ℕ → Bool
output_expected none output_id gpio pixel_count = true
output_expected (some table) output_id gpio pixel_count = table_has table output_id gpio pixel_count

abbrev pub ids_expected : Option Table → List ℕ → Bool
ids_expected none seen_ids = true
ids_expected (some table) seen_ids = same_set seen_ids (table_ids table)

-- The call of `UdpV3Output(...)`, under `except ValueError: return None`.
unfoldable pub construct_output : UdpV3Output → Option UdpV3Output
construct_output o = caught (do output_post_init o; ok o)

-- The rest of the walk: the bytes that are left, the ids and the GPIOs that were seen.
abbrev pub Walk : Type 0
Walk = List ℕ → List ℕ → List ℕ → Option (List UdpV3Output)

-- One round of the loop from the unpacked output header on. `rest` follows that header.
unfoldable pub decode_output :
    Walk
    → Option Table
    → List ℕ
    → List ℕ
    → List ℕ
    → Fields output_format
    → Option (List UdpV3Output)
decode_output walk expected rest seen_ids seen_gpios
      (output_id, (gpio, (pixel_count, (rgb_length, _)))) =
    guard (not (output_id == 0)) (
      guard (not (elem output_id seen_ids)) (
        guard (not (elem gpio seen_gpios)) (
          guard (rgb_length == pixel_count * 3) (
            guard (not (ltb (length rest) rgb_length)) (
              guard (output_expected expected output_id gpio pixel_count) (
                and_then
                  (construct_output (record {
                    output_id = output_id;
                    gpio = gpio;
                    pixels = payload_to_pixels (take rgb_length rest);
                  }))
                  (λ o.
                    and_then
                      (walk (drop rgb_length rest) (output_id ∷ seen_ids) (gpio ∷ seen_gpios))
                      (λ os. some (o ∷ os)))))))))

-- The loop of `decode`, and the two tests that follow it. The unpacking is behind the test of the
-- length, so that it finds all its bytes and raises nothing.
unfoldable pub decode_outputs : ℕ → Option Table → Walk
decode_outputs zero expected rest seen_ids seen_gpios =
    guard (is_empty rest) (guard (ids_expected expected seen_ids) (some []))
decode_outputs (suc n) expected rest seen_ids seen_gpios =
    guard (not (ltb (length rest) output_length)) (
      and_then (unpack output_format (take output_length rest)) (
        decode_output (decode_outputs n expected) expected (drop output_length rest) seen_ids
          seen_gpios))

abbrev pub at_least : Option ℕ → ℕ → Bool
at_least none value = true
at_least (some minimum) value = not (ltb value minimum)

-- The call `cls(...)`, under `except ValueError: return None`.
unfoldable pub construct : UdpV3Packet → Option UdpV3Packet
construct p = caught (do post_init p; ok p)

-- The caller's arguments of `decode`.
pub record Wanted : Type 0 where
  pub expected_node_id : Option ℕ
  pub expected_outputs : Option Table
  pub min_sequence : Option ℕ
  pub max_udp_payload : ℕ

-- `decode` from the unpacked header on.
unfoldable pub decode_body : List ℕ → Wanted → Fields header_format → Option UdpV3Packet
decode_body bytes w
      (
        m,
        (
          v,
          (message_type, (node_id, (flags, (sequence, (media, (apply_at, (count, (size, _)))))))),
        ),
      ) =
    guard (m == magic && v == version && message_type == message_type_frame && allowed_flags flags)
      (guard (same (is_scheduled flags) (not (apply_at == 0))) (
        guard (not (count == 0) && leb count 3) (
          guard (expects w.expected_node_id node_id) (
            guard (at_least w.min_sequence sequence) (
              guard (length bytes == header_length + size + crc_length) (
                guard (crc_matches bytes) (
                  and_then
                    (decode_outputs count w.expected_outputs (take size (drop header_length bytes))
                      [] [])
                    (λ outputs. construct (record {
                      digital_node_id = node_id;
                      sequence = sequence;
                      media_timestamp_us = media;
                      outputs = outputs;
                      apply_at_us = apply_of apply_at;
                      flags = flags;
                      message_type = message_type;
                    })))))))))

unfoldable pub decode : List ℕ → Wanted → Option UdpV3Packet
decode bytes w = guard (not (ltb (length bytes) (header_length + crc_length))) (
    guard (not (ltb w.max_udp_payload (length bytes)))
      (and_then (unpack header_format (take header_length bytes)) (decode_body bytes w)))
