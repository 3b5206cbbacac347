-- ===== src/UdpV3/Packet/Total.antt =====
-- udp_v3.py: when `UdpV3Packet.encode` succeeds, and how it fails.
use light_belt.Prelude.{
  ℕ, ◌+◌, ◌*◌, ◌<◌, ◌≤◌, ◌≡◌, refl, Bool, true, false, ◌||◌, List, [], ◌∷◌, ◌++◌, arith, length,
  length-append, All, All-append, Result, ok, err, struct_error, value_error, ltb, ltb→lt,
  ltb-false, ltb-false→le, ||-false, le→leb, leb-false, inl, inr, Bool-cases,
}
use light_belt.Wire.Bytes.{IsByte, AreBytes}
use light_belt.Wire.Struct.{Fits, pack, unpack-pack}
use light_belt.Wire.Crc.{crc_length, sealed, with_crc-eq, length-sealed, sealed-AreBytes}
use light_belt.Wire.Pixels.{
  max_uint16, max_uint32, max_uint64, flat, length-flat, flat-AreBytes, pixels_to_payload-flat,
}
use light_belt.UdpV3.Frame.{header_format, header_length, apply_raw}
use light_belt.UdpV3.Packet.{
  UdpV3Output, UdpV3Packet, output_post_init, output_format, output_length, output_fields,
  post_init, Constructed, encode_outputs, header_fields, encode,
}
use light_belt.UdpV3.Packet.Outputs.{IsValidOutput, output_post_init→IsValidOutput}

-- The length of the payload: a header and three bytes a pixel for each output.
abbrev pub frame_length : List UdpV3Output → ℕ
frame_length [] = 0
frame_length (o ∷ os) = output_length + length o.pixels * 3 + frame_length os

-- Some output has more pixel bytes than the 16 bits of its length hold.
abbrev pub has_long : List UdpV3Output → Bool
has_long [] = false
has_long (o ∷ os) = ltb max_uint16 (length o.pixels * 3) || has_long os

-- The outputs that were encoded, or `struct.error` at the first that is too long.
record Outcome (os : List UdpV3Output) (r : Result (List ℕ)) : Type 0 where
  short :
      has_long os ≡ false
      → (payload : List ℕ) × (r ≡ ok payload)
        × (length payload ≡ frame_length os)
        × AreBytes payload
  long : has_long os ≡ true → r ≡ err struct_error

module _ (o : UdpV3Output) (v : IsValidOutput o) where
  Fits-output :
      length o.pixels * 3 ≤ max_uint16
      → Fits output_format (output_fields o (length (flat o.pixels)))
  Fits-output h = omega (arith, v.id, v.gpio, v.count, length-flat o.pixels)

  unpackable :
      max_uint16 < length o.pixels * 3
      → pack output_format (output_fields o (length (flat o.pixels))) ≡ err struct_error
  unfolding pack
  unpackable h = ground (arith, v.id, v.gpio, v.count, length-flat o.pixels)

  outcome_long :
      (os : List UdpV3Output)
      → max_uint16 < length o.pixels * 3
      → encode_outputs (o ∷ os) ≡ err struct_error
  unfolding encode_outputs
  outcome_long os h = rw (pixels_to_payload-flat o.pixels v.channels, unpackable h)

  module _ (os : List UdpV3Output) (room : length o.pixels * 3 ≤ max_uint16) where
    encoded_output :
        (header : List ℕ) × (pack output_format (output_fields o (length (flat o.pixels)))
          ≡ ok header)
        × (length header ≡ output_length)
        × AreBytes header
    encoded_output =
        let (header, packed, _, len, bytes) = unpack-pack output_format _ (Fits-output room) in
        (header, packed, len, bytes)

    outcome_rest : encode_outputs os ≡ err struct_error → encode_outputs (o ∷ os) ≡ err struct_error
    unfolding encode_outputs
    outcome_rest h = rw (pixels_to_payload-flat o.pixels v.channels, encoded_output.1, h)

    outcome_ok :
        (rest : List ℕ)
        → encode_outputs os ≡ ok rest
        → encode_outputs (o ∷ os) ≡ ok (encoded_output.0 ++ (flat o.pixels ++ rest))
    unfolding encode_outputs
    outcome_ok rest h = rw (pixels_to_payload-flat o.pixels v.channels, encoded_output.1, h)

Outcome-cons :
    (o : UdpV3Output) (os : List UdpV3Output)
    → IsValidOutput o
    → Outcome os (encode_outputs os)
    → Outcome (o ∷ os) (encode_outputs (o ∷ os))
Outcome-cons o os v rest = elim (Bool-cases (ltb max_uint16 (length o.pixels * 3))) [
  | inl e ↦ record {
    short = λ f. cc (e, (||-false (ltb max_uint16 (length o.pixels * 3)) (has_long os) f).0);
    long = λ f. outcome_long o v os (ltb→lt _ _ e);
  }
  | inr e ↦
      let room = ltb-false→le max_uint16 (length o.pixels * 3) e in
      let (header, packed, len, bytes) = encoded_output o v os room in
      record {
        short = λ f.
            let (payload, encoded, size, safe) =
              rest.short (||-false (ltb max_uint16 (length o.pixels * 3)) (has_long os) f).1 in
            (
              header ++ (flat o.pixels ++ payload),
              outcome_ok o v os room payload encoded,
              omega (
                arith,
                length-append header (flat o.pixels ++ payload),
                length-append (flat o.pixels) payload,
                length-flat o.pixels,
                len,
                size,
              ),
              All-append IsByte header _ bytes (
                  All-append IsByte (flat o.pixels) payload (flat-AreBytes o.pixels v.channels)
                    safe),
            );
        long = λ f. outcome_rest o v os room (rest.long (rw e at f));
      }
]

outcome :
    (os : List UdpV3Output)
    → All (λ o. output_post_init o ≡ ok tt) os
    → Outcome os (encode_outputs os)
outcome [] h = record {
  short = λ e. ([], (unfold encode_outputs in refl), refl, tt);
  long = λ e. cc;
}
outcome (o ∷ os) (h, hs) = Outcome-cons o os (output_post_init→IsValidOutput o h) (outcome os hs)

-- The bounds of the header's values.
record Bounds (p : UdpV3Packet) : Type 0 where
  node_id : p.digital_node_id ≤ 255
  sequence : p.sequence ≤ max_uint32
  media : p.media_timestamp_us ≤ max_uint64
  apply_at : apply_raw p.apply_at_us ≤ max_uint64
  flags : p.flags ≤ 255
  message_type : p.message_type ≤ 255
  count : length p.outputs ≤ 3

post_init→Bounds : (p : UdpV3Packet) → post_init p ≡ ok tt → Bounds p
unfolding post_init
post_init→Bounds p h = ground arith

short_of_fits : (os : List UdpV3Output) → frame_length os ≤ max_uint16 → has_long os ≡ false
short_of_fits [] h = refl
short_of_fits (o ∷ os) h =
    rw (ltb-false max_uint16 (length o.pixels * 3) (omega arith), short_of_fits os (omega arith))

-- A packet that Python can hold, with a payload that fits 16 bits, is encoded without an error, in
-- as many bytes as its headers, its pixels and the checksum need.
pub packet_encode_total :
    (p : UdpV3Packet)
    → Constructed p
    → frame_length p.outputs ≤ max_uint16
    → (bytes : List ℕ) × (encode p ≡ ok bytes)
      × (length bytes ≡ header_length + frame_length p.outputs + crc_length)
      × AreBytes bytes
unfolding encode
packet_encode_total p (ho, hp) fits =
    let b = post_init→Bounds p hp in
    let (payload, encoded, size, safe) =
      (outcome p.outputs ho).short (short_of_fits p.outputs fits) in
    let room : Fits header_format (header_fields p (length payload)) =
      omega (arith, b.node_id, b.sequence, b.media, b.apply_at, b.flags, b.message_type, b.count) in
    let (header, packed, _, len, bytes) =
      unpack-pack header_format (header_fields p (length payload)) room in
    (
      sealed (header ++ payload),
      rw (encoded, le→leb (length payload) max_uint16 (omega arith), packed)
          (with_crc-eq (header ++ payload)),
      omega (arith, length-sealed (header ++ payload), length-append header payload, len, size),
      sealed-AreBytes (header ++ payload) (All-append IsByte header payload bytes safe),
    )

-- A packet that Python can hold, with an output of more than 65535 pixel bytes, is refused with
-- `struct.error`: the length of the output does not fit its field, and the test that would raise
-- `ValueError` is not reached.
pub packet_encode_long :
    (p : UdpV3Packet) → Constructed p → has_long p.outputs ≡ true → encode p ≡ err struct_error
unfolding encode
packet_encode_long p (ho, hp) long = rw ((outcome p.outputs ho).long long)

-- A packet that Python can hold, with outputs of at most 65535 pixel bytes each that are too long
-- together, is refused with `ValueError`.
pub packet_encode_over :
    (p : UdpV3Packet)
    → Constructed p
    → has_long p.outputs ≡ false
    → max_uint16 < frame_length p.outputs
    → encode p ≡ err value_error
unfolding encode
packet_encode_over p (ho, hp) short over =
    let (payload, encoded, size, _) = (outcome p.outputs ho).short short in
    rw (encoded, leb-false (length payload) max_uint16 (omega arith))
