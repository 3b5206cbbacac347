-- ===== src/UdpV2/Codec.antt =====
-- udp_v2.py: `encode` and `decode` are inverse to each other.
use light_belt.Prelude.{
  ℕ, ◌+◌, ◌*◌, ◌+◌, ◌<◌, ◌≤◌, ◌≡◌, refl, sym, ap, true, Option, some, List, ◌++◌, ◌↔◌, arith, inl,
  inr, Result-cases, length-append, All-append, length, All, length-take, length-drop, All-take,
  All-drop, take, drop, ok, ◌∙◌, ok-injective, and_then,
}
use light_belt.Wire.Bytes.{IsByte, AreBytes}
use light_belt.Wire.Crc.{
  crc_length, crc_matches, sealed, with_crc-eq, length-sealed, sealed-AreBytes, take-sealed,
  drop-sealed, crc_matches-sealed, cut→sealed,
}
use light_belt.Wire.Struct.{Fields, pack, unpack, Fits, unpack-pack, and_then-unpack}
use light_belt.Wire.Pixels.{
  IsPixel, max_uint8, max_uint16, max_uint32, flat, pixels_to_payload, pixels_to_payload-flat,
  pixels_to_payload-eq-ok, length-flat, flat-AreBytes, payload_to_pixels, payload_to_pixels-flat,
  flat-payload_to_pixels,
}
use light_belt.UdpV2.{
  UdpV2Packet, post_init, encode, decode, decode_body, construct, allowed_flags, header_format,
  header_length, header_fields, magic, version, expects, at_least,
}

-- What `__post_init__` checks.
pub record IsValid (p : UdpV2Packet) : Type 0 where
  pub node_id : (0 < p.digital_node_id) × (p.digital_node_id ≤ max_uint8)
  pub sequence : p.sequence ≤ max_uint32
  pub message_type : p.message_type ≤ max_uint8
  pub flags : p.flags < 4
  pub channels : All IsPixel p.pixels
  pub payload : length p.pixels * 3 ≤ max_uint16

pub IsValid→post_init : (p : UdpV2Packet) → IsValid p → post_init p ≡ ok tt
unfolding post_init
IsValid→post_init p v =
    ground (arith, pixels_to_payload-flat p.pixels v.channels, length-flat p.pixels)

pub post_init→IsValid : (p : UdpV2Packet) → post_init p ≡ ok tt → IsValid p
unfolding post_init
post_init→IsValid p h = elim (Result-cases (pixels_to_payload p.pixels)) [
  | inl (payload, e) ↦
      let channels = pixels_to_payload-eq-ok p.pixels payload e in
      ground (arith, pixels_to_payload-flat p.pixels channels, length-flat p.pixels)
  | inr (e, q) ↦ ground arith
]

-- The fields of a valid packet's header fit their widths.
header-Fits :
    (p : UdpV2Packet) → IsValid p → Fits header_format (header_fields p (length (flat p.pixels)))
header-Fits p v =
    omega (arith, v.node_id, v.sequence, v.message_type, v.flags, v.payload, length-flat p.pixels)

-- A valid packet is encoded, in 18 bytes and three for each pixel.
pub udp_v2_encode_total :
    (p : UdpV2Packet)
    → post_init p ≡ ok tt
    → (bytes : List ℕ) × (encode p ≡ ok bytes)
      × (length bytes ≡ header_length + length p.pixels * 3 + 4)
      × AreBytes bytes
unfolding encode
udp_v2_encode_total p h =
    let v = post_init→IsValid p h in
    let (header, packed, unpacked, len, bytes) = unpack-pack header_format _ (header-Fits p v) in
    (
      sealed (header ++ flat p.pixels),
      rw (pixels_to_payload-flat p.pixels v.channels, packed) (with_crc-eq _),
      omega (
        arith,
        length-sealed (header ++ flat p.pixels),
        length-append header (flat p.pixels),
        length-flat p.pixels,
      ),
      sealed-AreBytes _
          (All-append IsByte header (flat p.pixels) bytes (flat-AreBytes p.pixels v.channels)),
    )

module _ (p : UdpV2Packet) (v : IsValid p) (header : List ℕ) (len : length header ≡ header_length)
    (unpacked : unpack header_format header ≡ some (header_fields p (length (flat p.pixels))))
    (expected min_sequence : Option ℕ) (max_payload : ℕ)
    (fits : length (sealed (header ++ flat p.pixels)) ≤ max_payload)
    (wanted : expects expected p.digital_node_id ≡ true)
    (recent : at_least min_sequence p.sequence ≡ true) where
  decode-sealed :
      decode (sealed (header ++ flat p.pixels)) expected min_sequence max_payload ≡ some p
  unfolding decode decode_body construct
  decode-sealed =
      rw
        (
          take-sealed header (flat p.pixels) len,
          unpacked,
          drop-sealed header (flat p.pixels) len refl,
          payload_to_pixels-flat p.pixels,
          crc_matches-sealed (header ++ flat p.pixels),
          IsValid→post_init p v,
          wanted,
          recent,
        )
        (ground (
          arith,
          length-sealed (header ++ flat p.pixels),
          length-append header (flat p.pixels),
          length-flat p.pixels,
        ))

-- Decoding inverts encoding: what `encode` makes of a valid packet, `decode` takes back, if it is
-- not longer than the limit and the caller's node and minimum sequence let it pass.
pub udp_v2_decode-encode :
    (p : UdpV2Packet) (bytes : List ℕ) (expected min_sequence : Option ℕ) (max_payload : ℕ)
    → post_init p ≡ ok tt
    → encode p ≡ ok bytes
    → length bytes ≤ max_payload
    → expects expected p.digital_node_id ≡ true
    → at_least min_sequence p.sequence ≡ true
    → decode bytes expected min_sequence max_payload ≡ some p
udp_v2_decode-encode p bytes expected min_sequence max_payload h encoded fits wanted recent =
    let v = post_init→IsValid p h in
    let (header, packed, unpacked, len, _) = unpack-pack header_format _ (header-Fits p v) in
    let made : encode p ≡ ok (sealed (header ++ flat p.pixels)) =
      unfold encode in rw (pixels_to_payload-flat p.pixels v.channels, packed) (with_crc-eq _) in
    let same : sealed (header ++ flat p.pixels) ≡ bytes = ok-injective (sym made ∙ encoded) in
    rw same at (
      decode-sealed p v header len unpacked expected min_sequence max_payload (rw same fits) wanted
        recent)

-- What `decode` lets through.
pub record Decoded (bytes : List ℕ) (expected min_sequence : Option ℕ) (max_payload : ℕ)
    (p : UdpV2Packet) : Type 0 where
  pub constructed : post_init p ≡ ok tt
  pub encoded : encode p ≡ ok bytes
  pub fits : length bytes ≤ max_payload
  pub wanted : expects expected p.digital_node_id ≡ true
  pub recent : at_least min_sequence p.sequence ≡ true

construct-eq-some : (q p : UdpV2Packet) → construct q ≡ some p → (post_init q ≡ ok tt) × (q ≡ p)
unfolding construct
construct-eq-some q p h = elim (Result-cases (post_init q)) [
  | inl (tt, e) ↦ (e, ground arith)
  | inr (x, e) ↦ ground arith
]

-- The values of a header that `decode_body` lets through, with the packet that it makes of them.
record Passed (bytes : List ℕ) (expected min_sequence : Option ℕ) (p : UdpV2Packet) (m v pc pl : ℕ)
    (q : UdpV2Packet) : Type 0 where
  signed : (m ≡ magic) × (v ≡ version)
  allowed : allowed_flags q.flags ≡ true
  wanted : expects expected q.digital_node_id ≡ true
  recent : at_least min_sequence q.sequence ≡ true
  sized : pl ≡ pc * 3
  whole : length bytes ≡ header_length + pl + crc_length
  intact : crc_matches bytes ≡ true
  made : construct q ≡ some p

abbrev packet_of : List ℕ → Fields header_format → UdpV2Packet
packet_of bytes (m, (v, (mt, (node, (fl, (seq, (pc, (pl, u)))))))) = record {
  digital_node_id = node;
  sequence = seq;
  pixels = payload_to_pixels (take pl (drop header_length bytes));
  flags = fl;
  message_type = mt;
}

module _ (bytes : List ℕ) (a : AreBytes bytes) (expected min_sequence : Option ℕ) (max_payload : ℕ)
    (short : length bytes ≤ max_payload) (p : UdpV2Packet) (m v mt node fl seq pc pl : ℕ) where
  abbrev values : Fields header_format
  values = (m, (v, (mt, (node, (fl, (seq, (pc, (pl, tt))))))))

  decode_body→Passed :
      decode_body bytes expected min_sequence values ≡ some p
      → Passed bytes expected min_sequence p m v pc pl (packet_of bytes values)
  unfolding decode_body
  decode_body→Passed h = ground arith

  Passed→Decoded :
      pack header_format values ≡ ok (take header_length bytes)
      → Passed bytes expected min_sequence p m v pc pl (packet_of bytes values)
      → Decoded bytes expected min_sequence max_payload p
  Passed→Decoded packed d =
      let payload : List ℕ = take pl (drop header_length bytes) in
      let q = packet_of bytes values in
      let (constructed, same) = construct-eq-some q p d.made in
      let (back, count, channels) =
        flat-payload_to_pixels pc payload
          (omega (
            arith,
            length-take pl (drop header_length bytes),
            length-drop header_length bytes,
            d.sized,
            d.whole,
          ))
          (All-take IsByte pl _ (All-drop IsByte header_length bytes a)) in
      let size : length (flat q.pixels) ≡ pl =
        omega (arith, length-flat q.pixels, count, d.sized) in
      let fields : values ≡ header_fields q (length (flat q.pixels)) =
        ground (arith, d.signed, size, count) in
      let written : encode q ≡ ok bytes =
        unfold encode in
        rw (pixels_to_payload-flat q.pixels channels, ← fields, packed, with_crc-eq, back)
          (ap ok (cut→sealed header_length pl bytes a d.whole d.intact)) in
      rw same at (
        let made : Decoded bytes expected min_sequence max_payload q = record {
          constructed = constructed;
          encoded = written;
          fits = short;
          wanted = d.wanted;
          recent = d.recent;
        } in
        made)

module _ (bytes : List ℕ) (a : AreBytes bytes) (expected min_sequence : Option ℕ) (max_payload : ℕ)
    (p : UdpV2Packet) where
  header_body→Decoded :
      length bytes ≤ max_payload
      → (vs : Fields header_format) → pack header_format vs ≡ ok (take header_length bytes)
      → decode_body bytes expected min_sequence vs ≡ some p
      → Decoded bytes expected min_sequence max_payload p
  header_body→Decoded short (m, (v, (mt, (node, (fl, (seq, (pc, (pl, u)))))))) packed h =
      Passed→Decoded bytes a expected min_sequence max_payload short p m v mt node fl seq pc pl
        packed
        (decode_body→Passed bytes a expected min_sequence max_payload short p m v mt node fl seq pc
          pl h)

  -- The two tests on the length come before the header is read.
  decode_lengths :
      decode bytes expected min_sequence max_payload ≡ some p
      → (header_length + crc_length ≤ length bytes)
        × (length bytes ≤ max_payload)
        × (and_then
              (unpack header_format (take header_length bytes))
              (decode_body bytes expected min_sequence)
            ≡ some p)
  unfolding decode
  decode_lengths h = ground arith

  long_header :
      header_length + crc_length ≤ length bytes → length (take header_length bytes) ≡ header_length
  long_header h = omega (arith, length-take header_length bytes)

  decode→Decoded :
      decode bytes expected min_sequence max_payload ≡ some p
      → Decoded bytes expected min_sequence max_payload p
  decode→Decoded h =
      let (long, short, read) = decode_lengths h in
      let (vs, packed, passed) =
        and_then-unpack header_format (take header_length bytes)
          (decode_body bytes expected min_sequence) (long_header long)
          (All-take IsByte header_length bytes a) read in
      header_body→Decoded short vs packed passed

-- On a string of bytes, `decode` answers with a packet exactly when that packet is valid, its
-- encoding is the datagram, the datagram is within the limit, and the node and the sequence are as
-- the caller wants them.
pub udp_v2_decode_iff :
    (bytes : List ℕ) (expected min_sequence : Option ℕ) (max_payload : ℕ) (p : UdpV2Packet)
    → AreBytes bytes
    → (decode bytes expected min_sequence max_payload ≡ some p)
      ↔ Decoded bytes expected min_sequence max_payload p
udp_v2_decode_iff bytes expected min_sequence max_payload p a = (
  decode→Decoded bytes a expected min_sequence max_payload p,
  λ d.
      udp_v2_decode-encode p bytes expected min_sequence max_payload d.constructed d.encoded d.fits
        d.wanted d.recent,
)
