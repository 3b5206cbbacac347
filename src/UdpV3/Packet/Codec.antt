-- ===== src/UdpV3/Packet/Codec.antt =====
-- udp_v3.py: `UdpV3Packet.decode` takes exactly the datagrams that `UdpV3Packet.encode` makes.
use light_belt.Prelude.{
  ℕ, ◌+◌, ◌≤◌, ◌≡◌, ◌↔◌, ap, true, some, List, [], arith, inl, inr, Result-cases, length,
  length-take, length-drop, All-take, All-drop, take, drop, ok, and_then, and_then-eq-some,
}
use light_belt.Wire.Bytes.{IsByte, AreBytes}
use light_belt.Wire.Struct.{Fields, pack, unpack, and_then-unpack, pack-eq-ok}
use light_belt.Wire.Crc.{crc_length, crc_matches, cut→sealed}
use light_belt.Wire.Pixels.{max_uint16}
use light_belt.UdpV3.Frame.{
  magic, version, header_format, header_length, apply_raw, apply_of, expects,
}
use light_belt.UdpV3.Packet.{
  UdpV3Output, UdpV3Packet, post_init, output_ids, header_fields, decode_outputs, at_least,
  construct, Wanted, decode_body, decode,
}
use light_belt.UdpV3.Packet.Outputs.{decode_outputs→Walks}
use light_belt.UdpV3.Packet.Encoded.{
  Walks→Walked, ids_expected-met, Parts→encode, Decoded, Decoded→decode,
}

construct-eq-some : (q p : UdpV3Packet) → construct q ≡ some p → (post_init q ≡ ok tt) × (q ≡ p)
unfolding construct
construct-eq-some q p h = elim (Result-cases (post_init q)) [
  | inl (tt, e) ↦ (e, ground arith)
  | inr (x, e) ↦ ground arith
]

module _ (bytes : List ℕ) (w : Wanted) (p : UdpV3Packet)
    (m v message_type node_id flags sequence media apply_at count size : ℕ) where
  abbrev values : Fields header_format
  values = (
    m,
    (v, (message_type, (node_id, (flags, (sequence, (media, (apply_at, (count, (size, tt))))))))),
  )

  abbrev packet_of : List UdpV3Output → UdpV3Packet
  packet_of outputs = record {
    digital_node_id = node_id;
    sequence = sequence;
    media_timestamp_us = media;
    outputs = outputs;
    apply_at_us = apply_of apply_at;
    flags = flags;
    message_type = message_type;
  }

  abbrev payload : List ℕ
  payload = take size (drop header_length bytes)

  -- What the tests on the header let through.
  record Passed : Type 0 where
    signed : (m ≡ magic) × (v ≡ version)
    whole : length bytes ≡ header_length + size + crc_length
    wanted_node : expects w.expected_node_id node_id ≡ true
    recent : at_least w.min_sequence sequence ≡ true
    intact : crc_matches bytes ≡ true
    onward :
        and_then
          (decode_outputs count w.expected_outputs payload [] [])
          (λ outputs. construct (packet_of outputs))
        ≡ some p

  decode_body→Passed : decode_body bytes w values ≡ some p → Passed
  unfolding decode_body
  decode_body→Passed h = ground arith

  apply_raw-apply_of : apply_raw (apply_of apply_at) ≡ apply_at
  apply_raw-apply_of = ground arith

  Passed→Decoded :
      AreBytes bytes
      → length bytes ≤ w.max_udp_payload
      → size ≤ max_uint16
      → pack header_format values ≡ ok (take header_length bytes)
      → Passed
      → Decoded bytes w p
  Passed→Decoded a short small packed d =
      let (outputs, walked, made) =
        and_then-eq-some (decode_outputs count w.expected_outputs payload [] []) _ d.onward in
      let (constructed, equal) = construct-eq-some (packet_of outputs) p made in
      let (counted, encoded, walks) =
        decode_outputs→Walks w.expected_outputs count payload [] [] outputs
          (All-take IsByte size _ (All-drop IsByte header_length bytes a)) walked in
      let r = Walks→Walked w.expected_outputs outputs [] [] walks in
      let sized : length payload ≡ size = omega (
        arith,
        length-take size (drop header_length bytes),
        length-drop header_length bytes,
        d.whole,
      ) in
      let fields : values ≡ header_fields (packet_of outputs) (length payload) =
        ground (arith, d.signed, counted, sized, apply_raw-apply_of) in
      let decoded : Decoded bytes w (packet_of outputs) = record {
        constructed = (r.constructed, constructed);
        encoded = Parts→encode (packet_of outputs) bytes (record {
          payload = payload;
          header = take header_length bytes;
          outputs_encoded = encoded;
          small = omega arith;
          packed = rw fields at packed;
          joined = cut→sealed header_length size bytes a d.whole d.intact;
        });
        fits = short;
        wanted_node = d.wanted_node;
        recent = d.recent;
        rows = r.rows;
        complete = ids_expected-met w.expected_outputs (output_ids outputs) r.complete;
      } in
      rw equal at decoded

module _ (bytes : List ℕ) (w : Wanted) (p : UdpV3Packet) (a : AreBytes bytes) where
  header_body→Decoded :
      length bytes ≤ w.max_udp_payload
      → (vs : Fields header_format) → pack header_format vs ≡ ok (take header_length bytes)
      → decode_body bytes w vs ≡ some p
      → Decoded bytes w p
  header_body→Decoded short (m, (v, (mt, (node, (fl, (seq, (media, (ap, (ct, (sz, u)))))))))) packed
        h =
      Passed→Decoded bytes w p m v mt node fl seq media ap ct sz a short
        (omega (arith, pack-eq-ok header_format _ _ packed)) packed
        (decode_body→Passed bytes w p m v mt node fl seq media ap ct sz h)

  decode_lengths :
      decode bytes w ≡ some p
      → (header_length + crc_length ≤ length bytes)
        × (length bytes ≤ w.max_udp_payload)
        × (and_then (unpack header_format (take header_length bytes)) (decode_body bytes w)
            ≡ some p)
  unfolding decode
  decode_lengths h = ground arith

  long_header :
      header_length + crc_length ≤ length bytes → length (take header_length bytes) ≡ header_length
  long_header h = omega (arith, length-take header_length bytes)

  decode→Decoded : decode bytes w ≡ some p → Decoded bytes w p
  decode→Decoded h =
      let (long, short, read) = decode_lengths h in
      let (vs, packed, passed) =
        and_then-unpack header_format (take header_length bytes) (decode_body bytes w)
          (long_header long) (All-take IsByte header_length bytes a) read in
      header_body→Decoded short vs packed passed

-- On a string of bytes, `decode` answers with a packet exactly when the packet and its outputs are
-- what their constructors accept, the datagram is the packet's encoding and within the limit, the
-- node and the sequence are as the caller wants them, and the outputs are those that the caller
-- expects.
pub packet_decode_iff :
    (bytes : List ℕ) (w : Wanted) (p : UdpV3Packet)
    → AreBytes bytes
    → (decode bytes w ≡ some p) ↔ Decoded bytes w p
packet_decode_iff bytes w p a = (decode→Decoded bytes w p a, Decoded→decode bytes w p)
