-- ===== src/UdpV3/Chunk/Total.antt =====
-- udp_v3.py: a constructed chunk packet is always encoded.
use light_belt.Prelude.{
  ℕ, ◌+◌, ◌≤◌, ◌≡◌, refl, List, [], ◌∷◌, ◌++◌, arith, length, length-append, All, All-append, ok,
}
use light_belt.Wire.Bytes.{IsByte, AreBytes}
use light_belt.Wire.Struct.{Fits, unpack-pack}
use light_belt.Wire.Crc.{crc_length, sealed, with_crc-eq, length-sealed, sealed-AreBytes}
use light_belt.Wire.Pixels.{
  max_uint16, max_uint32, max_uint64, flat, length-flat, flat-AreBytes, pixels_to_payload-flat,
}
use light_belt.UdpV3.Frame.{header_format, header_length, apply_raw}
use light_belt.UdpV3.Chunk.{
  UdpV3Chunk, UdpV3ChunkPacket, chunk_post_init, chunk_format, chunk_fields, post_init, Constructed,
  payload_length, encode_chunks, header_fields, encode,
}
use light_belt.UdpV3.Chunk.Ranges.{chunk_post_init→IsValidChunk}

encode_chunks_total :
    (cs : List UdpV3Chunk)
    → All (λ c. chunk_post_init c ≡ ok tt) cs
    → (payload : List ℕ) × (encode_chunks cs ≡ ok payload)
      × (length payload ≡ payload_length cs)
      × AreBytes payload
unfolding encode_chunks
encode_chunks_total [] h = ([], refl, refl, tt)
encode_chunks_total (c ∷ cs) (h, hs) =
    let v = chunk_post_init→IsValidChunk c h in
    let (rest, encoded, len, bytes) = encode_chunks_total cs hs in
    let fits : Fits chunk_format (chunk_fields c (length (flat c.pixels))) =
      omega (arith, v.id, v.gpio, v.total, v.count, v.range, length-flat c.pixels) in
    let (header, packed, _, header_len, header_bytes) =
      unpack-pack chunk_format (chunk_fields c (length (flat c.pixels))) fits in
    (
      header ++ (flat c.pixels ++ rest),
      rw (pixels_to_payload-flat c.pixels v.channels, packed, encoded),
      omega (
        arith,
        length-append header (flat c.pixels ++ rest),
        length-append (flat c.pixels) rest,
        length-flat c.pixels,
        len,
        header_len,
      ),
      All-append IsByte header (flat c.pixels ++ rest) header_bytes
          (All-append IsByte (flat c.pixels) rest (flat-AreBytes c.pixels v.channels) bytes),
    )

-- The bounds of the header's values.
record Bounds (p : UdpV3ChunkPacket) : Type 0 where
  node_id : p.digital_node_id ≤ 255
  sequence : p.sequence ≤ max_uint32
  media : p.media_timestamp_us ≤ max_uint64
  apply_at : apply_raw p.apply_at_us ≤ max_uint64
  flags : p.flags ≤ 255
  message_type : p.message_type ≤ 255
  count : length p.chunks ≤ 3
  payload : payload_length p.chunks ≤ max_uint16

post_init→Bounds : (p : UdpV3ChunkPacket) → post_init p ≡ ok tt → Bounds p
unfolding post_init
post_init→Bounds p h = ground arith

-- A chunk packet that Python can hold is encoded without an error, in as many bytes as its headers
-- and its pixels need, and the checksum.
pub chunk_encode_total :
    (p : UdpV3ChunkPacket)
    → Constructed p
    → (bytes : List ℕ) × (encode p ≡ ok bytes)
      × (length bytes ≡ header_length + payload_length p.chunks + crc_length)
      × AreBytes bytes
unfolding encode
chunk_encode_total p (hc, hp) =
    let b = post_init→Bounds p hp in
    let (payload, encoded, len, bytes) = encode_chunks_total p.chunks hc in
    let fits : Fits header_format (header_fields p (length payload)) = omega (
      arith, b.node_id, b.sequence, b.media, b.apply_at, b.flags, b.message_type, b.count,
      b.payload, len,
    ) in
    let (header, packed, _, header_len, header_bytes) =
      unpack-pack header_format (header_fields p (length payload)) fits in
    (
      sealed (header ++ payload),
      rw (encoded, packed) (with_crc-eq (header ++ payload)),
      omega
          (arith, length-sealed (header ++ payload), length-append header payload, len, header_len),
      sealed-AreBytes (header ++ payload) (All-append IsByte header payload header_bytes bytes),
    )
