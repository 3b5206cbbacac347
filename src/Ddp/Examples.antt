-- ===== src/Ddp/Examples.antt =====
-- ddp_output.py: a test on a frame of three pixels in packets of one.
use light_belt.Prelude.{
  ℕ, ◌+◌, ◌≤◌, ◌≡◌, refl, false, some, List, [], ◌∷◌, is_empty, All, length, ok, arith,
}
use light_belt.Wire.Pixels.{Pixel}
use light_belt.Ddp.{frame_payload, encode_ddp_packets}
use light_belt.Ddp.Packets.{
  ddp_header_len, contents, PushedLast, IsNumbered, encode_ddp_packets_total,
}

abbrev three_pixels : List Pixel
three_pixels = (1, 2, 3) ∷ (4, 5, 6) ∷ (7, 8, 265) ∷ []

encode_ddp_packets_total_example :
    (packets : List (List ℕ)) × (encode_ddp_packets three_pixels 15 5 ≡ ok (some packets))
    × (contents packets ≡ frame_payload three_pixels)
    × (is_empty packets ≡ false)
    × All (λ packet. length packet ≤ ddp_header_len + 5) packets
    × PushedLast packets
    × All IsNumbered packets
encode_ddp_packets_total_example = encode_ddp_packets_total three_pixels 15 5 (omega arith)

-- The packets hold a pixel each; the last channel is cut to a byte, and the numbers wrap from 15 to 1.
encode-three_pixels :
    encode_ddp_packets three_pixels 15 5
    ≡ ok (
        some (
          (0x40 ∷ 15 ∷ 0x0B ∷ 1 ∷ 0 ∷ 0 ∷ 0 ∷ 0 ∷ 0 ∷ 3 ∷ 1 ∷ 2 ∷ 3 ∷ [])
          ∷ (0x40 ∷ 1 ∷ 0x0B ∷ 1 ∷ 0 ∷ 0 ∷ 0 ∷ 3 ∷ 0 ∷ 3 ∷ 4 ∷ 5 ∷ 6 ∷ [])
          ∷ (0x41 ∷ 2 ∷ 0x0B ∷ 1 ∷ 0 ∷ 0 ∷ 0 ∷ 6 ∷ 0 ∷ 3 ∷ 7 ∷ 8 ∷ 9 ∷ [])
          ∷ []))
unfolding encode_ddp_packets light_belt.Ddp.packet_loop light_belt.Ddp.packet_at
encode-three_pixels = refl
