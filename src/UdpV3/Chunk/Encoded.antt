-- ===== src/UdpV3/Chunk/Encoded.antt =====
-- udp_v3.py: an encoded chunk packet in its parts, and `decode` on it.
use light_belt.Prelude.{
  ℕ, ◌<◌, ◌≤◌, ◌≡◌, refl, sym, ◌∙◌, true, Option, some, List, [], ◌∷◌, ◌++◌, arith, ◌==◌, not, same,
  length, length-append, All, ok, ok-injective, >>=-eq-ok,
}
use light_belt.Prelude.Sets.{distinct, distinct_iff, Fresh}
use light_belt.Wire.Struct.{pack, unpack, packed-unpack}
use light_belt.Wire.Crc.{
  sealed, with_crc-eq, length-sealed, take-sealed, drop-sealed, crc_matches-sealed,
}
use light_belt.UdpV3.Frame.{
  message_type_frame_chunk, is_scheduled, header_format, header_length, apply_raw, apply_of,
  expects,
}
use light_belt.UdpV3.Chunk.{
  UdpV3Chunk, UdpV3ChunkPacket, chunk_post_init, post_init, Constructed, chunk_ids, encode_chunks,
  encode, header_fields, decode_chunks, construct, decode_body, decode,
}
use light_belt.UdpV3.Chunk.Walk.{
  decode_chunks-encode_chunks, length-encode_chunks, payload_length_pos,
}
use light_belt.UdpV3.Chunk.Ranges.{Walks}
use light_belt.UdpV3.Chunk.{chunk_gpios}

-- What `Walks` says, one condition at a time.
pub record Walked (os : List UdpV3Chunk) (seen_ids seen_gpios : List ℕ) : Type 0 where
  pub constructed : All (λ o. chunk_post_init o ≡ ok tt) os
  pub fresh_ids : Fresh seen_ids (chunk_ids os)
  pub fresh_gpios : Fresh seen_gpios (chunk_gpios os)

pub Walks→Walked :
    (os : List UdpV3Chunk) (seen_ids seen_gpios : List ℕ)
    → Walks os seen_ids seen_gpios
    → Walked os seen_ids seen_gpios
Walks→Walked [] seen_ids seen_gpios w = record {
  constructed = tt;
  fresh_ids = tt;
  fresh_gpios = tt;
}
Walks→Walked (o ∷ os) seen_ids seen_gpios (w, ws) =
    let r = Walks→Walked os (o.output_id ∷ seen_ids) (o.gpio ∷ seen_gpios) ws in
    record {
      constructed = (w.constructed, r.constructed);
      fresh_ids = (w.new_id, r.fresh_ids);
      fresh_gpios = (w.new_gpio, r.fresh_gpios);
    }

Walked→Walks :
    (os : List UdpV3Chunk) (seen_ids seen_gpios : List ℕ)
    → Walked os seen_ids seen_gpios
    → Walks os seen_ids seen_gpios
Walked→Walks [] seen_ids seen_gpios r = tt
Walked→Walks (o ∷ os) seen_ids seen_gpios r = (
  record { constructed = r.constructed.0; new_id = r.fresh_ids.0; new_gpio = r.fresh_gpios.0 },
  Walked→Walks os (o.output_id ∷ seen_ids) (o.gpio ∷ seen_gpios) (record {
    constructed = r.constructed.1;
    fresh_ids = r.fresh_ids.1;
    fresh_gpios = r.fresh_gpios.1;
  }),
)

-- What `__post_init__` checks of a packet.
pub record IsValid (p : UdpV3ChunkPacket) : Type 0 where
  pub node_id : (0 < p.digital_node_id) × (p.digital_node_id ≤ 255)
  pub flags : p.flags < 8
  pub schedule : same (is_scheduled p.flags) (not (apply_raw p.apply_at_us == 0)) ≡ true
  pub apply_at : apply_of (apply_raw p.apply_at_us) ≡ p.apply_at_us
  pub message_type : p.message_type ≡ message_type_frame_chunk
  pub count : (0 < length p.chunks) × (length p.chunks ≤ 3)
  pub unique : (distinct (chunk_ids p.chunks) ≡ true) × (distinct (chunk_gpios p.chunks) ≡ true)

pub post_init→IsValid : (p : UdpV3ChunkPacket) → post_init p ≡ ok tt → IsValid p
unfolding post_init
post_init→IsValid p h = ground arith

-- An encoded packet in its parts.
pub record Parts (p : UdpV3ChunkPacket) (bytes : List ℕ) : Type 0 where
  pub payload : List ℕ
  pub header : List ℕ
  pub chunks_encoded : encode_chunks p.chunks ≡ ok payload
  pub packed : pack header_format (header_fields p (length payload)) ≡ ok header
  pub joined : sealed (header ++ payload) ≡ bytes

pub encode→Parts : (p : UdpV3ChunkPacket) (bytes : List ℕ) → encode p ≡ ok bytes → Parts p bytes
unfolding encode
encode→Parts p bytes h =
    let (payload, e, h1) = >>=-eq-ok (encode_chunks p.chunks) _ h in
    let (header, packed, h3) =
      >>=-eq-ok (pack header_format (header_fields p (length payload))) _ h1 in
    record {
      payload = payload;
      header = header;
      chunks_encoded = e;
      packed = packed;
      joined = ok-injective (sym (with_crc-eq (header ++ payload)) ∙ h3);
    }

pub Parts→encode : (p : UdpV3ChunkPacket) (bytes : List ℕ) → Parts p bytes → encode p ≡ ok bytes
unfolding encode
Parts→encode p bytes r =
    rw (r.chunks_encoded, r.packed, with_crc-eq (r.header ++ r.payload), r.joined)

-- What `decode` lets through.
pub record Decoded (bytes : List ℕ) (expected : Option ℕ) (limit : ℕ) (p : UdpV3ChunkPacket)
    : Type 0 where
  pub constructed : Constructed p
  pub encoded : encode p ≡ ok bytes
  pub fits : length bytes ≤ limit
  pub wanted_node : expects expected p.digital_node_id ≡ true

Decoded→Walks :
    (bytes : List ℕ) (expected : Option ℕ) (limit : ℕ) (p : UdpV3ChunkPacket)
    → Decoded bytes expected limit p
    → Walks p.chunks [] []
Decoded→Walks bytes expected limit p d =
    let v = post_init→IsValid p d.constructed.1 in
    Walked→Walks p.chunks [] [] (record {
      constructed = d.constructed.0;
      fresh_ids = (distinct_iff (chunk_ids p.chunks)).0 v.unique.0;
      fresh_gpios = (distinct_iff (chunk_gpios p.chunks)).0 v.unique.1;
    })

module _ (bytes : List ℕ) (expected : Option ℕ) (limit : ℕ) (p : UdpV3ChunkPacket)
    (d : Decoded bytes expected limit p) (r : Parts p bytes) where
  header_facts :
      (unpack header_format r.header ≡ some (header_fields p (length r.payload)))
      × (length r.header ≡ header_length)
  header_facts = let (u, l, _) = packed-unpack header_format _ r.header r.packed in (u, l)

  chunks_back : decode_chunks (length p.chunks) r.payload [] [] ≡ some p.chunks
  chunks_back =
      decode_chunks-encode_chunks p.chunks r.payload [] [] (Decoded→Walks bytes expected limit p d)
        r.chunks_encoded

  Parts→decode :
      length (sealed (r.header ++ r.payload)) ≤ limit
      → decode (sealed (r.header ++ r.payload)) expected limit ≡ some p
  unfolding decode decode_body construct
  Parts→decode fits =
      let v = post_init→IsValid p d.constructed.1 in
      rw
        (
          take-sealed r.header r.payload header_facts.1,
          header_facts.0,
          drop-sealed r.header r.payload header_facts.1 refl,
          chunks_back,
          crc_matches-sealed (r.header ++ r.payload),
          v.apply_at,
          d.constructed.1,
          d.wanted_node,
          v.schedule,
        )
        (ground (
          arith,
          v.message_type,
          v.flags,
          v.count,
          header_facts.1,
          length-sealed (r.header ++ r.payload),
          length-append r.header r.payload,
          length-encode_chunks p.chunks r.payload r.chunks_encoded,
          payload_length_pos p.chunks v.count.0,
        ))

pub Decoded→decode :
    (bytes : List ℕ) (expected : Option ℕ) (limit : ℕ) (p : UdpV3ChunkPacket)
    → Decoded bytes expected limit p
    → decode bytes expected limit ≡ some p
Decoded→decode bytes expected limit p d =
    let r = encode→Parts p bytes d.encoded in
    rw r.joined at (Parts→decode bytes expected limit p d r (rw r.joined d.fits))
