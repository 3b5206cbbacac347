-- ===== src/UdpV3/Datagrams/Plan.antt =====
-- udp_v3.py: the chunks that the packetizer cuts a frame into, and that they cover it.
use light_belt.Prelude.{
  ℕ, zero, suc, ◌+◌, ◌-◌, ◌*◌, ◌/◌, ◌≤◌, ◌<◌, ◌≡◌, refl, ap, ◌∙◌, List, [], ◌∷◌, ◌++◌, arith,
  length, All, take, drop, join, take_all, take-take-drop, drop-drop, length-take, length-drop,
}
use light_belt.Wire.Pixels.{Pixel}
use light_belt.UdpV3.Packet.{UdpV3Output}
use light_belt.UdpV3.Chunk.{UdpV3Chunk}
use light_belt.UdpV3.Datagrams.{range_from, range_step, chunk_at}

-- The offsets that stay below the total.
range_from-lt :
    (count start step total : ℕ)
    → 0 < step
    → count * step + start ≤ total + step - 1
    → All (λ offset. offset < total) (range_from count start step)
range_from-lt zero start step total pos h = tt
range_from-lt (suc count) start step total pos h =
    (omega arith, range_from-lt count (start + step) step total pos (omega arith))

count_step : (total step : ℕ) → 0 < step → (total + step - 1) / step * step ≤ total + step - 1
count_step total step pos = omega arith

count_step_ge : (total step : ℕ) → 0 < step → total ≤ (total + step - 1) / step * step
count_step_ge total step pos = grind arith

pub range_step-lt :
    (total step : ℕ) → 0 < step → All (λ offset. offset < total) (range_step total step)
range_step-lt total step pos =
    range_from-lt ((total + step - 1) / step) 0 step total pos
      (omega (arith, count_step total step pos))

-- The pieces of a list, one after the other.
module _ {ℓ} {A : Type ℓ} (step : ℕ) (xs : List A) where
  abbrev pieces : List ℕ → List (List A)
  pieces [] = []
  pieces (offset ∷ offsets) = take step (drop offset xs) ∷ pieces offsets

  join-pieces_from :
      (count start : ℕ)
      → join (pieces (range_from count start step)) ≡ take (count * step) (drop start xs)
  join-pieces_from zero start = rw (let e : 0 * step ≡ 0 = omega arith in e)
  join-pieces_from (suc count) start = rw (
    join-pieces_from count (start + step),
    ← drop-drop step start xs,
    take-take-drop step (count * step) (drop start xs),
    let e : step + count * step ≡ suc count * step = omega arith in e,
  )

  join-pieces : 0 < step → join (pieces (range_step (length xs) step)) ≡ xs
  join-pieces pos =
      join-pieces_from ((length xs + step - 1) / step) 0
      ∙ take_all _ xs (count_step_ge (length xs) step pos)

-- The chunks of one output.
abbrev pub chunks_at : UdpV3Output → ℕ → List ℕ → List UdpV3Chunk
chunks_at o n [] = []
chunks_at o n (offset ∷ offsets) = chunk_at o n offset ∷ chunks_at o n offsets

-- The chunks of a frame, in the order in which they are sent.
abbrev pub chunk_plan : List UdpV3Output → ℕ → List UdpV3Chunk
chunk_plan [] n = []
chunk_plan (o ∷ os) n = chunks_at o n (range_step (length o.pixels) n) ++ chunk_plan os n

abbrev pub chunk_pixels : List UdpV3Chunk → List Pixel
chunk_pixels [] = []
chunk_pixels (c ∷ cs) = c.pixels ++ chunk_pixels cs

chunk_pixels-pieces :
    (o : UdpV3Output) (n : ℕ) (offsets : List ℕ)
    → chunk_pixels (chunks_at o n offsets) ≡ join (pieces n o.pixels offsets)
chunk_pixels-pieces o n [] = refl
chunk_pixels-pieces o n (offset ∷ offsets) =
    ap (◌++◌ (take n (drop offset o.pixels))) (chunk_pixels-pieces o n offsets)

-- Each range starts where the one before it ended, from `start` on.
abbrev pub Contiguous : ℕ → List UdpV3Chunk → Type 0
Contiguous start [] = Unit {0}
Contiguous start (c ∷ cs) = (c.chunk_offset ≡ start) × Contiguous (start + length c.pixels) cs

module _ (o : UdpV3Output) (n : ℕ) (pos : 0 < n) where
  piece_length :
      (start : ℕ) → start + n ≤ length o.pixels → length (take n (drop start o.pixels)) ≡ n
  piece_length start h =
      omega (arith, length-take n (drop start o.pixels), length-drop start o.pixels)

  chunks_from-Contiguous :
      (count start : ℕ)
      → All (λ offset. offset < length o.pixels) (range_from count start n)
      → Contiguous start (chunks_at o n (range_from count start n))
  chunks_from-Contiguous zero start h = tt
  chunks_from-Contiguous (suc zero) start h = (refl, tt)
  chunks_from-Contiguous (suc (suc count)) start h = (
    refl,
    rw (piece_length start (omega (arith, h.1.0)))
        (chunks_from-Contiguous (suc count) (start + n) h.1),
  )

  -- Cut into chunks of at most a positive number of pixels, an output gives chunks that follow one
  -- another without a gap from the first pixel on, and hold its pixels in order.
  pub chunks_cover :
      Contiguous 0 (chunks_at o n (range_step (length o.pixels) n))
      × (chunk_pixels (chunks_at o n (range_step (length o.pixels) n)) ≡ o.pixels)
  chunks_cover = (
    chunks_from-Contiguous ((length o.pixels + n - 1) / n) 0
        (range_step-lt (length o.pixels) n pos),
    chunk_pixels-pieces o n (range_step (length o.pixels) n) ∙ join-pieces n o.pixels pos,
  )
