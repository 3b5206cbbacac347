-- ===== src/UdpV2/Examples.antt =====
-- udp_v2.py: tests on a small frame.
use light_belt.Prelude.{ℕ, ◌+◌, ◌*◌, ◌≡◌, ◌↔◌, refl, some, List, [], ◌∷◌, ok, arith, length}
use light_belt.Wire.Bytes.{AreBytes}
use light_belt.UdpV2.{UdpV2Packet, post_init, encode, decode, header_length}
use light_belt.UdpV2.Codec.{Decoded, udp_v2_encode_total, udp_v2_decode_iff}

abbrev sample : UdpV2Packet
sample = record {
  digital_node_id = 3;
  sequence = 300;
  pixels = (10, 20, 30) ∷ (255, 0, 1) ∷ [];
  flags = 1;
  message_type = 1;
}

abbrev sample_bytes : List ℕ
sample_bytes =
    76 ∷ 69 ∷ 2 ∷ 1 ∷ 3 ∷ 1 ∷ 0 ∷ 0 ∷ 1 ∷ 44 ∷ 0 ∷ 2 ∷ 0 ∷ 6 ∷ 10 ∷ 20 ∷ 30 ∷ 255 ∷ 0 ∷ 1 ∷ 159
    ∷ 127 ∷ 210 ∷ 8 ∷ []

encode-sample : encode sample ≡ ok sample_bytes
unfolding encode light_belt.Wire.Pixels.pixels_to_payload light_belt.Wire.Struct.pack
    light_belt.Wire.Crc.with_crc light_belt.Wire.Crc.crc32 light_belt.Wire.Bytes.be_bytes
encode-sample = refl

post_init-sample : post_init sample ≡ ok tt
unfolding post_init light_belt.Wire.Pixels.pixels_to_payload
post_init-sample = refl

sample_bytes-AreBytes : AreBytes sample_bytes
sample_bytes-AreBytes = omega arith

udp_v2_encode_total_example :
    (bytes : List ℕ) × (encode sample ≡ ok bytes)
    × (length bytes ≡ header_length + 2 * 3 + 4)
    × AreBytes bytes
udp_v2_encode_total_example = udp_v2_encode_total sample post_init-sample

udp_v2_decode_iff_example :
    (decode sample_bytes (some 3) (some 300) 1200 ≡ some sample)
    ↔ Decoded sample_bytes (some 3) (some 300) 1200 sample
udp_v2_decode_iff_example =
    udp_v2_decode_iff sample_bytes (some 3) (some 300) 1200 sample sample_bytes-AreBytes

decode-sample_bytes : decode sample_bytes (some 3) (some 300) 1200 ≡ some sample
decode-sample_bytes = udp_v2_decode_iff_example.1 (record {
  constructed = post_init-sample;
  encoded = encode-sample;
  fits = omega arith;
  wanted = refl;
  recent = refl;
})
