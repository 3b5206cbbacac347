-- ===== src/DdpOutput/Shown.antt =====
-- ddp_output.py: which pixels a node shows, written out.
use light_belt.Prelude.{ℕ, ◌≡◌, refl, List, [], ◌∷◌, map, join, min, arith, inl, inr, ◌⊎◌, ◌≢◌}
use light_belt.Prelude.Bits.{low_bits}
use light_belt.Prelude.Sorting.{Ordered, sort_by, sort_by-Ordered}
use light_belt.Wire.Pixels.{Pixel}
use light_belt.Frames.{DigitalNodeFrame, DigitalOutputFrame}
use light_belt.Ddp.{channels, frame_payload}
use light_belt.DdpOutput.{pixel_u8, source_pixels}

-- What a node shows: each channel at most 255, and one black pixel in place of none.
abbrev clamped : List Pixel → List ℕ
clamped [] = []
clamped ((r, g, b) ∷ pixels) = min 255 r ∷ min 255 g ∷ min 255 b ∷ clamped pixels

abbrev pub shown : List Pixel → List ℕ
shown [] = 0 ∷ 0 ∷ 0 ∷ []
shown (p ∷ pixels) = clamped (p ∷ pixels)

-- A node's pixels: its own if it has no outputs, or else those of its outputs, one after the other in
-- the order of their numbers.
abbrev pub HasPixels : DigitalNodeFrame → List Pixel → Type 0
HasPixels d pixels =
    ((d.outputs ≡ []) × (pixels ≡ d.pixels))
    ⊎ ((d.outputs ≢ [])
        × ((os : List DigitalOutputFrame) × Ordered (λ (o : DigitalOutputFrame). o.output_id)
              d.outputs os
            × (pixels ≡ join (map (λ (o : DigitalOutputFrame). o.pixels) os))))

channels-clamped : (pixels : List Pixel) → channels (map pixel_u8 pixels) ≡ clamped pixels
unfolding channels
channels-clamped [] = refl
channels-clamped ((r, g, b) ∷ pixels) =
    rw (channels-clamped pixels, low_byte r, low_byte g, low_byte b) refl
  where
    low_byte : (c : ℕ) → low_bits (min 255 c) 8 ≡ min 255 c
    low_byte c = omega arith

pub frame_payload-shown : (pixels : List Pixel) → frame_payload (map pixel_u8 pixels) ≡ shown pixels
unfolding frame_payload channels
frame_payload-shown [] = refl
frame_payload-shown (p ∷ pixels) = channels-clamped (p ∷ pixels)

pub source_pixels-HasPixels : (d : DigitalNodeFrame) → HasPixels d (source_pixels d)
source_pixels-HasPixels d = go d.outputs refl
  where
    go : (os : List DigitalOutputFrame) → d.outputs ≡ os → HasPixels d (source_pixels d)
    go [] e = inl (e, rw e refl)
    go (o ∷ os) e = inr (
      λ none. cc,
      (
        sort_by (λ (o : DigitalOutputFrame). o.output_id) d.outputs,
        sort_by-Ordered (λ (o : DigitalOutputFrame). o.output_id) d.outputs,
        rw e refl,
      ),
    )
