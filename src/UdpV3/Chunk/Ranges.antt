-- ===== src/UdpV3/Chunk/Ranges.antt =====
-- udp_v3.py: the chunks in the payload of a chunk packet, written and read back.
use light_belt.Prelude.{
  ℕ, ◌+◌, ◌*◌, ◌<◌, ◌≤◌, ◌≡◌, false, List, [], ◌∷◌, arith, inl, inr, Result-cases, length, All, ok,
}
use light_belt.Prelude.Sets.{elem}
use light_belt.Wire.Pixels.{
  IsPixel, max_uint8, max_uint16, pixels_to_payload, pixels_to_payload-flat,
  pixels_to_payload-eq-ok, length-flat,
}
use light_belt.UdpV3.Chunk.{UdpV3Chunk, chunk_post_init}

-- What one chunk must be for `decode` to take it after those that it has met.
pub record Welcome (c : UdpV3Chunk) (seen_ids seen_gpios : List ℕ) : Type 0 where
  pub constructed : chunk_post_init c ≡ ok tt
  pub new_id : elem c.output_id seen_ids ≡ false
  pub new_gpio : elem c.gpio seen_gpios ≡ false

abbrev pub Walks : List UdpV3Chunk → List ℕ → List ℕ → Type 0
Walks [] seen_ids seen_gpios = Unit {0}
Walks (c ∷ cs) seen_ids seen_gpios =
    Welcome c seen_ids seen_gpios × Walks cs (c.output_id ∷ seen_ids) (c.gpio ∷ seen_gpios)

-- What `UdpV3Chunk.__post_init__` checks.
pub record IsValidChunk (c : UdpV3Chunk) : Type 0 where
  pub id : (0 < c.output_id) × (c.output_id ≤ max_uint8)
  pub gpio : c.gpio ≤ max_uint8
  pub total : c.total_pixel_count ≤ max_uint16
  pub count : (0 < length c.pixels) × (length c.pixels * 3 ≤ max_uint16)
  pub range : c.chunk_offset + length c.pixels ≤ c.total_pixel_count
  pub channels : All IsPixel c.pixels

pub IsValidChunk→chunk_post_init : (c : UdpV3Chunk) → IsValidChunk c → chunk_post_init c ≡ ok tt
unfolding chunk_post_init
IsValidChunk→chunk_post_init c v =
    ground (arith, pixels_to_payload-flat c.pixels v.channels, length-flat c.pixels)

pub chunk_post_init→IsValidChunk : (c : UdpV3Chunk) → chunk_post_init c ≡ ok tt → IsValidChunk c
unfolding chunk_post_init
chunk_post_init→IsValidChunk c h = elim (Result-cases (pixels_to_payload c.pixels)) [
  | inl (payload, e) ↦
      let channels = pixels_to_payload-eq-ok c.pixels payload e in
      ground (arith, pixels_to_payload-flat c.pixels channels, length-flat c.pixels)
  | inr (x, e) ↦ ground arith
]
