-- ===== src/UdpV3/Chunk/Codec.antt =====
-- udp_v3.py: `UdpV3ChunkPacket.decode` takes exactly the datagrams that `UdpV3ChunkPacket.encode` makes.
use light_belt.Prelude.{
  ℕ, Option, ◌+◌, ◌≤◌, ◌≡◌, ◌↔◌, ap, true, some, List, [], arith, inl, inr, Result-cases, length,
  length-take, length-drop, All-take, All-drop, take, drop, ok, and_then, and_then-eq-some,
}
use light_belt.Wire.Bytes.{IsByte, AreBytes}
use light_belt.Wire.Struct.{Fields, pack, unpack, and_then-unpack}
use light_belt.Wire.Crc.{crc_length, crc_matches, cut→sealed}
use light_belt.UdpV3.Frame.{
  magic, version, header_format, header_length, apply_raw, apply_of, expects,
}
use light_belt.UdpV3.Chunk.{
  chunk_length, UdpV3Chunk, UdpV3ChunkPacket, post_init, header_fields, decode_chunks, construct,
  decode_body, decode,
}
use light_belt.UdpV3.Chunk.Walk.{decode_chunks→Walks}
use light_belt.UdpV3.Chunk.Encoded.{Walks→Walked, Parts→encode, Decoded, Decoded→decode}

construct-eq-some :
    (q p : UdpV3ChunkPacket) → construct q ≡ some p → (post_init q ≡ ok tt) × (q ≡ p)
unfolding construct
construct-eq-some q p h = elim (Result-cases (post_init q)) [
  | inl (tt, e) ↦ (e, ground arith)
  | inr (x, e) ↦ ground arith
]

module _ (bytes : List ℕ) (expected : Option ℕ) (limit : ℕ) (p : UdpV3ChunkPacket)
    (m v message_type node_id flags sequence media apply_at count size : ℕ) where
  abbrev values : Fields header_format
  values = (
    m,
    (v, (message_type, (node_id, (flags, (sequence, (media, (apply_at, (count, (size, tt))))))))),
  )

  abbrev packet_of : List UdpV3Chunk → UdpV3ChunkPacket
  packet_of chunks = record {
    digital_node_id = node_id;
    sequence = sequence;
    media_timestamp_us = media;
    chunks = chunks;
    apply_at_us = apply_of apply_at;
    flags = flags;
    message_type = message_type;
  }

  abbrev payload : List ℕ
  payload = take size (drop header_length bytes)

  -- What the tests on the header let through.
  record Passed : Type 0 where
    signed : (m ≡ magic) × (v ≡ version)
    whole : length bytes ≡ header_length + size + crc_length
    wanted_node : expects expected node_id ≡ true
    intact : crc_matches bytes ≡ true
    onward :
        and_then (decode_chunks count payload [] []) (λ chunks. construct (packet_of chunks))
        ≡ some p

  decode_body→Passed : decode_body bytes expected values ≡ some p → Passed
  unfolding decode_body
  decode_body→Passed h = ground arith

  apply_raw-apply_of : apply_raw (apply_of apply_at) ≡ apply_at
  apply_raw-apply_of = ground arith

  Passed→Decoded :
      AreBytes bytes
      → length bytes ≤ limit
      → pack header_format values ≡ ok (take header_length bytes)
      → Passed
      → Decoded bytes expected limit p
  Passed→Decoded a short packed d =
      let (chunks, walked, made) =
        and_then-eq-some (decode_chunks count payload [] []) _ d.onward in
      let (constructed, equal) = construct-eq-some (packet_of chunks) p made in
      let (counted, encoded, walks) =
        decode_chunks→Walks count payload [] [] chunks
          (All-take IsByte size _ (All-drop IsByte header_length bytes a)) walked in
      let r = Walks→Walked chunks [] [] walks in
      let sized : length payload ≡ size = omega (
        arith,
        length-take size (drop header_length bytes),
        length-drop header_length bytes,
        d.whole,
      ) in
      let fields : values ≡ header_fields (packet_of chunks) (length payload) =
        ground (arith, d.signed, counted, sized, apply_raw-apply_of) in
      let decoded : Decoded bytes expected limit (packet_of chunks) = record {
        constructed = (r.constructed, constructed);
        encoded = Parts→encode (packet_of chunks) bytes (record {
          payload = payload;
          header = take header_length bytes;
          chunks_encoded = encoded;
          packed = rw fields at packed;
          joined = cut→sealed header_length size bytes a d.whole d.intact;
        });
        fits = short;
        wanted_node = d.wanted_node;
      } in
      rw equal at decoded

module _ (bytes : List ℕ) (expected : Option ℕ) (limit : ℕ) (p : UdpV3ChunkPacket)
    (a : AreBytes bytes) where
  header_body→Decoded :
      length bytes ≤ limit
      → (vs : Fields header_format) → pack header_format vs ≡ ok (take header_length bytes)
      → decode_body bytes expected vs ≡ some p
      → Decoded bytes expected limit p
  header_body→Decoded short (m, (v, (mt, (node, (fl, (seq, (media, (ap, (ct, (sz, u)))))))))) packed
        h =
      Passed→Decoded bytes expected limit p m v mt node fl seq media ap ct sz a short packed
        (decode_body→Passed bytes expected limit p m v mt node fl seq media ap ct sz h)

  decode_lengths :
      decode bytes expected limit ≡ some p
      → (header_length + chunk_length + crc_length ≤ length bytes)
        × (length bytes ≤ limit)
        × (and_then (unpack header_format (take header_length bytes)) (decode_body bytes expected)
            ≡ some p)
  unfolding decode
  decode_lengths h = ground arith

  long_header :
      header_length + chunk_length + crc_length ≤ length bytes
      → length (take header_length bytes) ≡ header_length
  long_header h = omega (arith, length-take header_length bytes)

  decode→Decoded : decode bytes expected limit ≡ some p → Decoded bytes expected limit p
  decode→Decoded h =
      let (long, short, read) = decode_lengths h in
      let (vs, packed, passed) =
        and_then-unpack header_format (take header_length bytes) (decode_body bytes expected)
          (long_header long) (All-take IsByte header_length bytes a) read in
      header_body→Decoded short vs packed passed

-- On a string of bytes, `decode` answers with a chunk packet exactly when the packet and its chunks
-- are what their constructors accept, the datagram is the packet's encoding and within the limit,
-- and the node is the one that the caller wants.
pub chunk_decode_iff :
    (bytes : List ℕ) (expected : Option ℕ) (limit : ℕ) (p : UdpV3ChunkPacket)
    → AreBytes bytes
    → (decode bytes expected limit ≡ some p) ↔ Decoded bytes expected limit p
chunk_decode_iff bytes expected limit p a =
    (decode→Decoded bytes expected limit p a, Decoded→decode bytes expected limit p)
