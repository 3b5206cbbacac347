-- ===== src/UdpV3/Chunk.antt =====
-- light_engine/outputs/udp_v3.py: `UdpV3Chunk` and `UdpV3ChunkPacket`, ranges of pixels of a frame
-- that does not fit one datagram. The names are those of `Packet`, in this module.
pub mod Ranges
pub mod Walk
pub mod Encoded
pub mod Codec
pub mod Total
use light_belt.Prelude.{
  ℕ, zero, suc, ◌+◌, ◌*◌, ◌≡◌, true, Option, some, List, [], ◌∷◌, ◌++◌, map, ◌&&◌, ◌==◌, ltb, leb,
  not, same, is_empty, length, All, take, drop, Result, ok, value_error, ◌>>=◌, ◌>>◌, require,
  caught, guard, and_then,
}
use light_belt.Prelude.Sets.{elem, distinct}
use light_belt.Wire.Struct.{Format, Fields, calcsize, pack, unpack}
use light_belt.Wire.Crc.{crc_length, with_crc, crc_matches}
use light_belt.Wire.Pixels.{
  Pixel, max_uint8, max_uint16, max_uint32, max_uint64, require_uint, pixels_to_payload,
  payload_to_pixels,
}
use light_belt.UdpV3.Frame.{
  magic, version, message_type_frame_chunk, allowed_flags, is_scheduled, header_format,
  header_length, apply_raw, apply_of, check_apply, schedule_agrees, expects,
}

-- ">BBHHHH"
abbrev pub chunk_format : Format
chunk_format = 1 ∷ 1 ∷ 2 ∷ 2 ∷ 2 ∷ 2 ∷ []

abbrev pub chunk_length : ℕ
chunk_length = calcsize chunk_format

pub record UdpV3Chunk : Type 0 where
  pub output_id : ℕ
  pub gpio : ℕ
  pub total_pixel_count : ℕ
  pub chunk_offset : ℕ
  pub pixels : List Pixel

unfoldable pub chunk_post_init : UdpV3Chunk → Result (Unit {0})
chunk_post_init c = do
  require_uint c.output_id max_uint8
  require (not (c.output_id == 0)) value_error
  require_uint c.gpio max_uint8
  require_uint c.total_pixel_count max_uint16
  require (not (c.total_pixel_count == 0)) value_error
  require_uint c.chunk_offset max_uint16
  require (not (is_empty c.pixels)) value_error
  require (leb (length c.pixels) max_uint16) value_error
  require (leb (c.chunk_offset + length c.pixels) c.total_pixel_count) value_error
  payload ← pixels_to_payload c.pixels
  require (leb (length payload) max_uint16) value_error
  ok tt

pub record UdpV3ChunkPacket : Type 0 where
  pub digital_node_id : ℕ
  pub sequence : ℕ
  pub media_timestamp_us : ℕ
  pub chunks : List UdpV3Chunk
  pub apply_at_us : Option ℕ
  pub flags : ℕ
  pub message_type : ℕ

abbrev pub chunk_ids : List UdpV3Chunk → List ℕ
chunk_ids = map (λ (c : UdpV3Chunk). c.output_id)

abbrev pub chunk_gpios : List UdpV3Chunk → List ℕ
chunk_gpios = map (λ (c : UdpV3Chunk). c.gpio)

-- `sum(CHUNK_LENGTH + len(chunk.pixels) * 3 for chunk in self.chunks)`
abbrev pub payload_length : List UdpV3Chunk → ℕ
payload_length [] = 0
payload_length (c ∷ cs) = chunk_length + length c.pixels * 3 + payload_length cs

unfoldable pub post_init : UdpV3ChunkPacket → Result (Unit {0})
post_init p = do
  require_uint p.digital_node_id max_uint8
  require (not (p.digital_node_id == 0)) value_error
  require_uint p.sequence max_uint32
  require_uint p.media_timestamp_us max_uint64
  check_apply p.apply_at_us
  require_uint p.flags max_uint8
  require (allowed_flags p.flags) value_error
  require (schedule_agrees p.flags p.apply_at_us) value_error
  require_uint p.message_type max_uint8
  require (p.message_type == message_type_frame_chunk) value_error
  require (not (is_empty p.chunks) && leb (length p.chunks) 3) value_error
  require (distinct (chunk_ids p.chunks)) value_error
  require (distinct (chunk_gpios p.chunks)) value_error
  require (leb (payload_length p.chunks) max_uint16) value_error

-- A chunk packet that Python can hold.
abbrev pub Constructed : UdpV3ChunkPacket → Type 0
Constructed p = All (λ c. chunk_post_init c ≡ ok tt) p.chunks × (post_init p ≡ ok tt)

abbrev pub chunk_fields : UdpV3Chunk → ℕ → Fields chunk_format
chunk_fields c rgb_length = (
  c.output_id,
  (c.gpio, (c.total_pixel_count, (c.chunk_offset, (length c.pixels, (rgb_length, tt))))),
)

-- The loop of `encode` over the chunks.
unfoldable pub encode_chunks : List UdpV3Chunk → Result (List ℕ)
encode_chunks [] = ok []
encode_chunks (c ∷ cs) = do
  rgb ← pixels_to_payload c.pixels
  header ← pack chunk_format (chunk_fields c (length rgb))
  rest ← encode_chunks cs
  ok (header ++ (rgb ++ rest))

abbrev pub header_fields : UdpV3ChunkPacket → ℕ → Fields header_format
header_fields p size = (
  magic,
  (
    version,
    (
      p.message_type,
      (
        p.digital_node_id,
        (
          p.flags,
          (
            p.sequence,
            (p.media_timestamp_us, (apply_raw p.apply_at_us, (length p.chunks, (size, tt)))),
          ),
        ),
      ),
    ),
  ),
)

unfoldable pub encode : UdpV3ChunkPacket → Result (List ℕ)
encode p = do
  payload ← encode_chunks p.chunks
  header ← pack header_format (header_fields p (length payload))
  with_crc (header ++ payload)

-- The call of `UdpV3Chunk(...)`, under `except ValueError: return None`.
unfoldable pub construct_chunk : UdpV3Chunk → Option UdpV3Chunk
construct_chunk c = caught (do chunk_post_init c; ok c)

-- The rest of the walk: the bytes that are left, the ids and the GPIOs that were seen.
abbrev pub Walker : Type 0
Walker = List ℕ → List ℕ → List ℕ → Option (List UdpV3Chunk)

-- One round of the loop from the unpacked chunk header on. `rest` follows that header.
unfoldable pub decode_chunk :
    Walker → List ℕ → List ℕ → List ℕ → Fields chunk_format → Option (List UdpV3Chunk)
decode_chunk walk rest seen_ids seen_gpios
      (output_id, (gpio, (total, (offset, (count, (size, _)))))) =
    guard
      (not (output_id == 0)
        && not (elem output_id seen_ids)
        && not (elem gpio seen_gpios)
        && not (total == 0)
        && not (count == 0)
        && size == count * 3
        && leb (offset + count) total
        && leb size (length rest))
      (and_then
        (construct_chunk (record {
          output_id = output_id;
          gpio = gpio;
          total_pixel_count = total;
          chunk_offset = offset;
          pixels = payload_to_pixels (take size rest);
        }))
        (λ c.
          and_then (walk (drop size rest) (output_id ∷ seen_ids) (gpio ∷ seen_gpios))
            (λ cs. some (c ∷ cs))))

-- The loop of `decode`, and the test that follows it. The unpacking is behind the test of the
-- length, so that it finds all its bytes and raises nothing.
unfoldable pub decode_chunks : ℕ → Walker
decode_chunks zero rest seen_ids seen_gpios = guard (is_empty rest) (some [])
decode_chunks (suc n) rest seen_ids seen_gpios = guard (not (ltb (length rest) chunk_length)) (
    and_then (unpack chunk_format (take chunk_length rest))
      (decode_chunk (decode_chunks n) (drop chunk_length rest) seen_ids seen_gpios))

-- The call `cls(...)`, under `except ValueError: return None`.
unfoldable pub construct : UdpV3ChunkPacket → Option UdpV3ChunkPacket
construct p = caught (do post_init p; ok p)

-- `decode` from the unpacked header on.
unfoldable pub decode_body : List ℕ → Option ℕ → Fields header_format → Option UdpV3ChunkPacket
decode_body bytes expected_node_id
      (
        m,
        (
          v,
          (message_type, (node_id, (flags, (sequence, (media, (apply_at, (count, (size, _)))))))),
        ),
      ) =
    guard
      (m == magic
        && v == version
        && message_type == message_type_frame_chunk
        && allowed_flags flags
        && same (is_scheduled flags) (not (apply_at == 0))
        && not (count == 0)
        && leb count 3
        && expects expected_node_id node_id
        && length bytes == header_length + size + crc_length
        && crc_matches bytes)
      (and_then (decode_chunks count (take size (drop header_length bytes)) [] []) (λ chunks.
        construct (record {
          digital_node_id = node_id;
          sequence = sequence;
          media_timestamp_us = media;
          chunks = chunks;
          apply_at_us = apply_of apply_at;
          flags = flags;
          message_type = message_type;
        })))

unfoldable pub decode : List ℕ → Option ℕ → ℕ → Option UdpV3ChunkPacket
decode bytes expected_node_id max_udp_payload =
    guard (not (ltb (length bytes) (header_length + chunk_length + crc_length))) (
      guard (not (ltb max_udp_payload (length bytes))) (
        and_then (unpack header_format (take header_length bytes))
          (decode_body bytes expected_node_id)))
