-- ===== src/UdpV3/Examples.antt =====
-- udp_v3.py: tests on small frames.
use light_belt.Prelude.{
  ℕ, ◌+◌, ◌≤◌, ◌<◌, ◌≡◌, ◌↔◌, zero, suc, ap, ◌*◌, ◌%◌, ◌^◌, ltb, refl, Bool, true, false,
  value_error, struct_error, Option, none, some, List, [], ◌∷◌, Result, ok, err, arith, length, All,
}
use light_belt.Wire.Bytes.{AreBytes}
use light_belt.Wire.Crc.{crc_length}
use light_belt.Wire.Pixels.{Pixel, IsPixel, max_uint16}
use light_belt.Prelude.Sets.{elem, distinct}
use light_belt.UdpV3.Frame.{header_length}
use light_belt.UdpV3.Packet.Outputs.{IsValidOutput, IsValidOutput→output_post_init}
use light_belt.UdpV3.Packet
use light_belt.UdpV3.Packet.{UdpV3Output, UdpV3Packet, Table, Wanted, output_post_init}
use light_belt.UdpV3.Packet.Encoded.{Decoded as DecodedFrame}
use light_belt.UdpV3.Packet.Codec.{packet_decode_iff}
use light_belt.UdpV3.Packet.Total.{
  frame_length, has_long, packet_encode_total, packet_encode_long, packet_encode_over,
}
use light_belt.UdpV3.Chunk
use light_belt.UdpV3.Chunk.{UdpV3Chunk, UdpV3ChunkPacket, chunk_post_init}
use light_belt.UdpV3.Chunk.Encoded.{Decoded as DecodedChunk}
use light_belt.UdpV3.Chunk.Codec.{chunk_decode_iff}
use light_belt.UdpV3.Chunk.Total.{chunk_encode_total}
use light_belt.UdpV3.Datagrams.{encode_udp_v3_frame_datagrams, range_step, chunk_at, chunk_packet}
use light_belt.UdpV3.Beacon
use light_belt.UdpV3.Beacon.{UdpV3ClockBeacon, clock_beacon_length}
use light_belt.UdpV3.Beacon.Codec.{beacon_encode_total, beacon_decode_iff}
use light_belt.UdpV3.Sequence.{is_newer_sequence, is_newer_sequence-step, is_newer_sequence_asymm}
use light_belt.UdpV3.Datagrams.Plan.{Contiguous, chunks_at, chunk_pixels, chunks_cover}
use light_belt.UdpV3.Datagrams.Bounded.{Packetized, packetizer_total}

abbrev pub two_pixels : List Pixel
two_pixels = (1, 2, 3) ∷ (4, 5, 6) ∷ []

abbrev pub output_one : UdpV3Output
output_one = record { output_id = 1; gpio = 5; pixels = two_pixels }

abbrev pub frame_one : UdpV3Packet
frame_one = record {
  digital_node_id = 7;
  sequence = 1;
  media_timestamp_us = 1000;
  outputs = output_one ∷ [];
  apply_at_us = none;
  flags = 2;
  message_type = 1;
}

abbrev pub frame_two : UdpV3Packet
frame_two = record frame_one { sequence = 2; flags = 0 }

abbrev chunk_one : UdpV3Chunk
chunk_one = chunk_at output_one 1 1

abbrev chunk_packet_one : UdpV3ChunkPacket
chunk_packet_one = chunk_packet frame_one chunk_one

abbrev pub frame_bytes : List ℕ
frame_bytes =
    76 ∷ 69 ∷ 3 ∷ 1 ∷ 7 ∷ 2 ∷ 0 ∷ 0 ∷ 0 ∷ 1 ∷ 0 ∷ 0 ∷ 0 ∷ 0 ∷ 0 ∷ 0 ∷ 3 ∷ 232 ∷ 0 ∷ 0 ∷ 0 ∷ 0 ∷ 0
    ∷ 0 ∷ 0 ∷ 0 ∷ 1 ∷ 0 ∷ 12 ∷ 1 ∷ 5 ∷ 0 ∷ 2 ∷ 0 ∷ 6 ∷ 1 ∷ 2 ∷ 3 ∷ 4 ∷ 5 ∷ 6 ∷ 83 ∷ 222 ∷ 118 ∷ 41
    ∷ []

abbrev pub next_bytes : List ℕ
next_bytes =
    76 ∷ 69 ∷ 3 ∷ 1 ∷ 7 ∷ 0 ∷ 0 ∷ 0 ∷ 0 ∷ 2 ∷ 0 ∷ 0 ∷ 0 ∷ 0 ∷ 0 ∷ 0 ∷ 3 ∷ 232 ∷ 0 ∷ 0 ∷ 0 ∷ 0 ∷ 0
    ∷ 0 ∷ 0 ∷ 0 ∷ 1 ∷ 0 ∷ 12 ∷ 1 ∷ 5 ∷ 0 ∷ 2 ∷ 0 ∷ 6 ∷ 1 ∷ 2 ∷ 3 ∷ 4 ∷ 5 ∷ 6 ∷ 107 ∷ 81 ∷ 209 ∷ 253
    ∷ []

abbrev chunk_bytes : List ℕ
chunk_bytes =
    76 ∷ 69 ∷ 3 ∷ 3 ∷ 7 ∷ 2 ∷ 0 ∷ 0 ∷ 0 ∷ 1 ∷ 0 ∷ 0 ∷ 0 ∷ 0 ∷ 0 ∷ 0 ∷ 3 ∷ 232 ∷ 0 ∷ 0 ∷ 0 ∷ 0 ∷ 0
    ∷ 0 ∷ 0 ∷ 0 ∷ 1 ∷ 0 ∷ 13 ∷ 1 ∷ 5 ∷ 0 ∷ 2 ∷ 0 ∷ 1 ∷ 0 ∷ 1 ∷ 0 ∷ 3 ∷ 4 ∷ 5 ∷ 6 ∷ 163 ∷ 35 ∷ 241
    ∷ 24 ∷ []

pub encode-frame_one : Packet.encode frame_one ≡ ok frame_bytes
unfolding Packet.encode Packet.encode_outputs light_belt.Wire.Pixels.pixels_to_payload
    light_belt.Wire.Struct.pack light_belt.Wire.Bytes.be_bytes light_belt.Wire.Crc.with_crc
    light_belt.Wire.Crc.crc32
encode-frame_one = refl

pub encode-frame_two : Packet.encode frame_two ≡ ok next_bytes
unfolding Packet.encode Packet.encode_outputs light_belt.Wire.Pixels.pixels_to_payload
    light_belt.Wire.Struct.pack light_belt.Wire.Bytes.be_bytes light_belt.Wire.Crc.with_crc
    light_belt.Wire.Crc.crc32
encode-frame_two = refl

encode-chunk_packet_one : Chunk.encode chunk_packet_one ≡ ok chunk_bytes
unfolding Chunk.encode Chunk.encode_chunks light_belt.Wire.Pixels.pixels_to_payload
    light_belt.Wire.Struct.pack light_belt.Wire.Bytes.be_bytes light_belt.Wire.Crc.with_crc
    light_belt.Wire.Crc.crc32
encode-chunk_packet_one = refl

pub frame_bytes-AreBytes : AreBytes frame_bytes
frame_bytes-AreBytes = omega arith

pub next_bytes-AreBytes : AreBytes next_bytes
next_bytes-AreBytes = omega arith

chunk_bytes-AreBytes : AreBytes chunk_bytes
chunk_bytes-AreBytes = omega arith

abbrev wanted_one : Wanted
wanted_one = record {
  expected_node_id = some 7;
  expected_outputs = some ((1, 5, 2) ∷ []);
  min_sequence = none;
  max_udp_payload = 65507;
}

packet_decode_iff_example :
    (Packet.decode frame_bytes wanted_one ≡ some frame_one)
    ↔ DecodedFrame frame_bytes wanted_one frame_one
packet_decode_iff_example = packet_decode_iff frame_bytes wanted_one frame_one frame_bytes-AreBytes

chunk_decode_iff_example :
    (Chunk.decode chunk_bytes (some 7) 65507 ≡ some chunk_packet_one)
    ↔ DecodedChunk chunk_bytes (some 7) 65507 chunk_packet_one
chunk_decode_iff_example =
    chunk_decode_iff chunk_bytes (some 7) 65507 chunk_packet_one chunk_bytes-AreBytes

pub frame_one-Constructed : Packet.Constructed frame_one
unfolding output_post_init Packet.post_init light_belt.Wire.Pixels.pixels_to_payload
    light_belt.Prelude.Sets.distinct
frame_one-Constructed = ((refl, tt), refl)

chunk_packet_one-Constructed : Chunk.Constructed chunk_packet_one
unfolding chunk_post_init Chunk.post_init light_belt.Wire.Pixels.pixels_to_payload
    light_belt.Prelude.Sets.distinct
chunk_packet_one-Constructed = ((refl, tt), refl)

packetizer_total_example :
    (ds : List (List ℕ)) × (encode_udp_v3_frame_datagrams frame_one 46 ≡ ok ds)
    × Packetized frame_one 46 ds
packetizer_total_example =
    packetizer_total frame_one 46 frame_one-Constructed (omega arith) (omega arith)

packet_encode_total_example :
    (bytes : List ℕ) × (Packet.encode frame_one ≡ ok bytes)
    × (length bytes ≡ header_length + frame_length (output_one ∷ []) + crc_length)
    × AreBytes bytes
packet_encode_total_example = packet_encode_total frame_one frame_one-Constructed (omega arith)

chunk_encode_total_example :
    (bytes : List ℕ) × (Chunk.encode chunk_packet_one ≡ ok bytes)
    × (length bytes ≡ header_length + Chunk.payload_length (chunk_one ∷ []) + crc_length)
    × AreBytes bytes
chunk_encode_total_example = chunk_encode_total chunk_packet_one chunk_packet_one-Constructed

chunks_cover_example :
    Contiguous 0 (chunks_at output_one 1 (range_step 2 1))
    × (chunk_pixels (chunks_at output_one 1 (range_step 2 1)) ≡ two_pixels)
chunks_cover_example = chunks_cover output_one 1 (omega arith)

-- Outputs of many black pixels.
unfoldable black : ℕ → List Pixel
black zero = []
black (suc n) = (0, 0, 0) ∷ black n

black-facts : (n : ℕ) → (length (black n) ≡ n) × All IsPixel (black n)
unfolding black
black-facts zero = (refl, tt)
black-facts (suc n) = let (e, a) = black-facts n in (ap suc e, (omega arith, a))

abbrev dark_output : ℕ → ℕ → ℕ → UdpV3Output
dark_output output_id gpio n = record { output_id = output_id; gpio = gpio; pixels = black n }

dark_output-IsValidOutput :
    (output_id gpio n : ℕ)
    → (0 < output_id) × (output_id ≤ 255)
    → gpio ≤ 255
    → n ≤ 65535
    → IsValidOutput (dark_output output_id gpio n)
dark_output-IsValidOutput output_id gpio n id g count = record {
  id = id;
  gpio = g;
  count = omega (arith, black-facts n);
  channels = (black-facts n).1;
}

abbrev dark_frame : List UdpV3Output → UdpV3Packet
dark_frame outputs = record frame_one { outputs = outputs }

abbrev long_output : UdpV3Output
long_output = dark_output 1 5 21846

long_output-post_init : output_post_init long_output ≡ ok tt
long_output-post_init =
    IsValidOutput→output_post_init long_output
      (dark_output-IsValidOutput 1 5 21846 (omega arith) (omega arith) (omega arith))

long_frame-Constructed : Packet.Constructed (dark_frame (long_output ∷ []))
unfolding Packet.post_init distinct
long_frame-Constructed = ((long_output-post_init, tt), refl)

long_frame-has_long : has_long (long_output ∷ []) ≡ true
long_frame-has_long = let (e, _) = black-facts 21846 in rw e

packet_encode_long_example : Packet.encode (dark_frame (long_output ∷ [])) ≡ err struct_error
packet_encode_long_example =
    packet_encode_long (dark_frame (long_output ∷ [])) long_frame-Constructed long_frame-has_long

-- Two outputs that are too long only together.
abbrev half : ℕ → ℕ → UdpV3Output
half output_id gpio = dark_output output_id gpio 15000

half-post_init :
    (output_id gpio : ℕ)
    → (0 < output_id) × (output_id ≤ 255)
    → gpio ≤ 255
    → output_post_init (half output_id gpio) ≡ ok tt
half-post_init output_id gpio id g =
    IsValidOutput→output_post_init (half output_id gpio)
      (dark_output-IsValidOutput output_id gpio 15000 id g (omega arith))

abbrev two_halves : List UdpV3Output
two_halves = half 1 5 ∷ half 2 6 ∷ []

halves-Constructed : Packet.Constructed (dark_frame two_halves)
unfolding Packet.post_init distinct elem
halves-Constructed = (
  (
    half-post_init 1 5 (omega arith) (omega arith),
    (half-post_init 2 6 (omega arith) (omega arith), tt),
  ),
  refl,
)

halves-has_long : has_long two_halves ≡ false
halves-has_long = let (e, _) = black-facts 15000 in rw e

packet_encode_over_example : Packet.encode (dark_frame two_halves) ≡ err value_error
packet_encode_over_example =
    packet_encode_over (dark_frame two_halves) halves-Constructed halves-has_long
      (omega (arith, black-facts 15000))

is_newer_sequence-step_example : is_newer_sequence ((4294967295 + 2) % 2 ^ 32) 4294967295 ≡ ok true
is_newer_sequence-step_example = is_newer_sequence-step 4294967295 2 (omega arith) (omega arith)

newer_wrapped : is_newer_sequence 1 4294967295 ≡ ok true
unfolding is_newer_sequence
newer_wrapped = refl

is_newer_sequence_asymm_example : is_newer_sequence 4294967295 1 ≡ ok false
is_newer_sequence_asymm_example = is_newer_sequence_asymm 1 4294967295 newer_wrapped

abbrev beacon_one : UdpV3ClockBeacon
beacon_one = record { sequence = 5; host_monotonic_us = 123456; message_type = 2 }

abbrev beacon_bytes : List ℕ
beacon_bytes =
    76 ∷ 69 ∷ 3 ∷ 2 ∷ 0 ∷ 0 ∷ 0 ∷ 5 ∷ 0 ∷ 0 ∷ 0 ∷ 0 ∷ 0 ∷ 1 ∷ 226 ∷ 64 ∷ 209 ∷ 103 ∷ 196 ∷ 135 ∷ []

beacon_one-post_init : Beacon.post_init beacon_one ≡ ok tt
unfolding Beacon.post_init
beacon_one-post_init = refl

beacon_bytes-AreBytes : AreBytes beacon_bytes
beacon_bytes-AreBytes = omega arith

encode-beacon_one : Beacon.encode beacon_one ≡ ok beacon_bytes
unfolding Beacon.encode light_belt.Wire.Struct.pack light_belt.Wire.Crc.with_crc
    light_belt.Wire.Crc.crc32 light_belt.Wire.Bytes.be_bytes
encode-beacon_one = refl

beacon_encode_total_example :
    (bytes : List ℕ) × (Beacon.encode beacon_one ≡ ok bytes)
    × (length bytes ≡ clock_beacon_length)
    × AreBytes bytes
beacon_encode_total_example = beacon_encode_total beacon_one beacon_one-post_init

beacon_decode_iff_example :
    (Beacon.decode beacon_bytes ≡ some beacon_one)
    ↔ ((Beacon.post_init beacon_one ≡ ok tt) × (Beacon.encode beacon_one ≡ ok beacon_bytes))
beacon_decode_iff_example = beacon_decode_iff beacon_bytes beacon_one beacon_bytes-AreBytes

decode-beacon_bytes : Beacon.decode beacon_bytes ≡ some beacon_one
decode-beacon_bytes = beacon_decode_iff_example.1 (beacon_one-post_init, encode-beacon_one)
