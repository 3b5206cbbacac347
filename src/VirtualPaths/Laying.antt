-- ===== src/VirtualPaths/Laying.antt =====
-- virtual.py: the segments and the gaps that a path is built of.
use light_belt.Prelude.{
  ℕ, ◌+◌, ◌≤◌, ◌≡◌, refl, ap, List, [], ◌∷◌, ◌++◌, ◌==◌, arith, map, Bool-cases, ==→eq, ◌<◌, ◌⊎◌,
  inl, inr, ok-injective, ok, >>=-eq-ok, ◌>>=◌,
}
use light_belt.PhysicalMapping.{Strip, Occupied}
use light_belt.VirtualPaths.{
  RawSegment, VirtualPathSegment, VirtualPathGap, Built, mapped_pixel_count, gap_coordinate_count,
  claim_sources, check_raw, gap_at, segment_at, and_built, build_segments,
}

-- The segments and their gaps lie one after the other, from the cursor to the end.
abbrev pub Tiles : ℕ → List VirtualPathSegment → ℕ → Type 0
Tiles cursor [] stop = cursor ≡ stop
Tiles cursor (s ∷ ss) stop =
    (s.global_start ≡ cursor)
    × (s.global_end ≡ cursor + s.pixel_count)
    × Tiles (cursor + s.pixel_count + s.gap_after_pixels) ss stop

-- The gaps are the coordinates between the end of a segment and the start of the next one, for each
-- segment that has some after it, in order.
abbrev pub GapsAfter : List VirtualPathSegment → List VirtualPathGap → Type 0
GapsAfter [] gs = gs ≡ []
GapsAfter (s ∷ ss) gs =
    ((s.gap_after_pixels ≡ 0) × GapsAfter ss gs)
    ⊎ ((0 < s.gap_after_pixels)
        × ((g : VirtualPathGap) × (later : List VirtualPathGap) × (gs ≡ g ∷ later)
            × (g.global_start ≡ s.global_end)
            × (g.global_end ≡ s.global_end + s.gap_after_pixels)
            × GapsAfter ss later))

-- The configured segment of a segment of the path.
abbrev pub configured : VirtualPathSegment → RawSegment
configured s = record {
  strip_id = s.strip_id;
  source_start = s.source_start;
  pixel_count = s.pixel_count;
  direction = s.direction;
  gap_after_pixels = s.gap_after_pixels;
}

-- What the loop has made of the configured segments, from a cursor on.
pub record Laid (cursor : ℕ) (raw : List RawSegment) (b : Built) : Type 0 where
  pub tiles : Tiles cursor b.segments b.cursor
  pub total : b.cursor ≡ cursor + (mapped_pixel_count b.segments + gap_coordinate_count b.gaps)
  pub gaps : GapsAfter b.segments b.gaps
  pub same : map configured b.segments ≡ raw

gap_at-count :
    (cursor count : ℕ) (gs : List VirtualPathGap)
    → gap_coordinate_count (gap_at cursor count ++ gs) ≡ count + gap_coordinate_count gs
unfolding gap_coordinate_count
gap_at-count cursor count gs = elim (Bool-cases (count == 0)) [
  | inl e ↦ rw e (ground (arith, e))
  | inr e ↦ rw e (omega arith)
]

gap_at-GapsAfter :
    (s : VirtualPathSegment) (ss : List VirtualPathSegment) (gs : List VirtualPathGap)
    → GapsAfter ss gs
    → GapsAfter (s ∷ ss) (gap_at s.global_end s.gap_after_pixels ++ gs)
gap_at-GapsAfter s ss gs h = elim (Bool-cases (s.gap_after_pixels == 0)) [
  | inl e ↦ inl (==→eq s.gap_after_pixels 0 e, rw e h)
  | inr e ↦ inr (ground (arith, e), (_, gs, rw e refl, refl, refl, h))
]

pub build_segments-Laid :
    (strips : List Strip) (used : Occupied) (cursor : ℕ) (raw : List RawSegment) (b : Built)
    → build_segments strips used cursor raw ≡ ok b
    → Laid cursor raw b
unfolding build_segments mapped_pixel_count gap_coordinate_count
build_segments-Laid strips used cursor [] b h =
    rw (← ok-injective h) (record { tiles = refl; total = omega arith; gaps = refl; same = refl })
build_segments-Laid strips used cursor (s ∷ ss) b h =
    let next = cursor + s.pixel_count + s.gap_after_pixels in
    let (_, _, later) =
      >>=-eq-ok (check_raw strips s)
        (λ done. claim_sources s.strip_id s.source_start s.pixel_count used >>= (λ more.
          build_segments strips more next ss >>= (λ rest. ok (and_built cursor s rest))))
        h in
    let (more, _, later') =
      >>=-eq-ok (claim_sources s.strip_id s.source_start s.pixel_count used)
        (λ more. build_segments strips more next ss >>= (λ rest. ok (and_built cursor s rest)))
        later in
    let (rest, built, made) =
      >>=-eq-ok (build_segments strips more next ss) (λ rest. ok (and_built cursor s rest))
        later' in
    let laid = build_segments-Laid strips more next ss rest built in
    rw (← ok-injective made) (record {
      tiles = (refl, refl, laid.tiles);
      total =
          omega
            (arith, laid.total, gap_at-count (cursor + s.pixel_count) s.gap_after_pixels rest.gaps);
      gaps = gap_at-GapsAfter (segment_at cursor s) rest.segments rest.gaps laid.gaps;
      same = ap (λ (raw : List RawSegment). s ∷ raw) laid.same;
    })

pub Tiles-le :
    (cursor stop : ℕ) (ss : List VirtualPathSegment) → Tiles cursor ss stop → cursor ≤ stop
Tiles-le cursor stop [] h = omega (arith, h)
Tiles-le cursor stop (s ∷ ss) h =
    omega (arith, Tiles-le (cursor + s.pixel_count + s.gap_after_pixels) stop ss h.2)
