-- ===== src/UdpV3/Datagrams.antt =====
-- light_engine/outputs/udp_v3.py: `encode_udp_v3_frame_datagrams`, which sends a frame whole where
-- one datagram holds it and in chunks of one output's pixels where it does not.
pub mod Plan
pub mod Bounded
use light_belt.Prelude.{
  ℕ, zero, suc, ◌+◌, ◌-◌, ◌*◌, ◌/◌, List, [], ◌∷◌, ◌++◌, ◌&&◌, leb, not, ltb, if◌then◌else◌, length,
  take, drop, Result, ok, err, value_error, assertion_error, ◌>>=◌, ◌>>◌, require,
}
use light_belt.Wire.Crc.{crc_length}
use light_belt.Wire.Pixels.{max_uint16, max_udp_payload}
use light_belt.UdpV3.Frame.{header_length, message_type_frame_chunk}
use light_belt.UdpV3.Packet
use light_belt.UdpV3.Packet.{UdpV3Output, UdpV3Packet, output_length}
use light_belt.UdpV3.Chunk
use light_belt.UdpV3.Chunk.{UdpV3Chunk, UdpV3ChunkPacket, chunk_length}

-- The numbers that `range(start, total, step)` runs through, `count` of them.
abbrev pub range_from : ℕ → ℕ → ℕ → List ℕ
range_from zero start step = []
range_from (suc count) start step = start ∷ range_from count (start + step) step

-- `range(0, total, step)` for a positive step.
abbrev pub range_step : ℕ → ℕ → List ℕ
range_step total step = range_from ((total + step - 1) / step) 0 step

-- `sum(OUTPUT_LENGTH + len(output.pixels) * 3 for output in packet.outputs)`
abbrev pub complete_payload_length : List UdpV3Output → ℕ
complete_payload_length [] = 0
complete_payload_length (o ∷ os) = output_length + length o.pixels * 3 + complete_payload_length os

-- `output.pixels[offset : offset + pixels_per_chunk]` with its place.
abbrev pub chunk_at : UdpV3Output → ℕ → ℕ → UdpV3Chunk
chunk_at o pixels_per_chunk offset = record {
  output_id = o.output_id;
  gpio = o.gpio;
  total_pixel_count = length o.pixels;
  chunk_offset = offset;
  pixels = take pixels_per_chunk (drop offset o.pixels);
}

abbrev pub chunk_packet : UdpV3Packet → UdpV3Chunk → UdpV3ChunkPacket
chunk_packet p c = record {
  digital_node_id = p.digital_node_id;
  sequence = p.sequence;
  media_timestamp_us = p.media_timestamp_us;
  chunks = c ∷ [];
  apply_at_us = p.apply_at_us;
  flags = p.flags;
  message_type = message_type_frame_chunk;
}

-- One round of the inner loop: the chunk and its packet are constructed, and encoded.
unfoldable pub encode_chunk_at : UdpV3Packet → ℕ → ℕ → UdpV3Output → ℕ → Result (List ℕ)
encode_chunk_at p limit pixels_per_chunk o offset = do
  Chunk.chunk_post_init (chunk_at o pixels_per_chunk offset)
  Chunk.post_init (chunk_packet p (chunk_at o pixels_per_chunk offset))
  encoded ← Chunk.encode (chunk_packet p (chunk_at o pixels_per_chunk offset))
  require (leb (length encoded) limit) assertion_error
  ok encoded

-- The inner loop, over the offsets of one output.
unfoldable pub encode_offsets : UdpV3Packet → ℕ → ℕ → UdpV3Output → List ℕ → Result (List (List ℕ))
encode_offsets p limit pixels_per_chunk o [] = ok []
encode_offsets p limit pixels_per_chunk o (offset ∷ offsets) = do
  encoded ← encode_chunk_at p limit pixels_per_chunk o offset
  rest ← encode_offsets p limit pixels_per_chunk o offsets
  ok (encoded ∷ rest)

-- The outer loop, over the outputs.
unfoldable pub encode_in_chunks : UdpV3Packet → ℕ → ℕ → List UdpV3Output → Result (List (List ℕ))
encode_in_chunks p limit pixels_per_chunk [] = ok []
encode_in_chunks p limit pixels_per_chunk (o ∷ os) = do
  first ← encode_offsets p limit pixels_per_chunk o (range_step (length o.pixels) pixels_per_chunk)
  rest ← encode_in_chunks p limit pixels_per_chunk os
  ok (first ++ rest)

-- Where the limit is below the overhead, Python's `available_rgb_bytes` is negative and this one 0:
-- in both the chunk holds no pixel.
abbrev pub available_rgb_bytes : ℕ → ℕ
available_rgb_bytes limit = limit - (header_length + chunk_length + crc_length)

unfoldable pub chunked : UdpV3Packet → ℕ → Result (List (List ℕ))
chunked p limit = do
  require (leb 1 (available_rgb_bytes limit / 3)) value_error
  encode_in_chunks p limit (available_rgb_bytes limit / 3) p.outputs

unfoldable pub encode_udp_v3_frame_datagrams : UdpV3Packet → ℕ → Result (List (List ℕ))
encode_udp_v3_frame_datagrams p limit = do
  require (leb 1 limit && leb limit max_udp_payload) value_error
  if leb (complete_payload_length p.outputs) max_uint16
      then (do
        complete ← Packet.encode p
        if leb (length complete) limit then ok (complete ∷ []) else chunked p limit)
      else chunked p limit
