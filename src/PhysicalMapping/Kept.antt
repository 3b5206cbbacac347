-- ===== src/PhysicalMapping/Kept.antt =====
-- physical.py: after the loop over the segments each segment still stands in its node's buffer.
use light_belt.Prelude.{
  ℕ, ◌+◌, ◌≤◌, ◌<◌, ◌≡◌, ◌∙◌, refl, sym, ap, Option, none, some, List, [], ◌∷◌, arith, length,
  Bool-cases, Option-cases, inl, inr, ◌==◌, ==→eq, ==_refl, All, ok,
}
use light_belt.Prelude.Positions.{length-replicate}
use light_belt.Wire.Pixels.{Pixel}
use light_belt.PhysicalMapping.{
  DigitalNodeMapping, DigitalSegmentMapping, Strip, Direction, forward, reverse, other_direction,
  find_node, check_segment,
}
use light_belt.PhysicalMapping.Map.{
  LogicalFrame, Buffers, black, black_buffers, fill, directed, splice, segment_source, put, place,
  place_all, strip_pixels,
}
use light_belt.PhysicalMapping.Pixels.{
  pixel_at, length-fill, length-reversed, splice-inside, splice-before, splice-after, length-splice,
}
use light_belt.PhysicalMapping.Segments.{Apart, PairwiseApart, Checked}

abbrev pixels_in : Option (List Pixel) → List Pixel
pixels_in none = []
pixels_in (some ps) = ps

-- The buffer of a node.
abbrev pub buffer_at : Buffers → ℕ → List Pixel
buffer_at buffers node_id = pixels_in (buffers node_id)

-- The segment lies in its node.
pub record Fits (nodes : List DigitalNodeMapping) (s : DigitalSegmentMapping) : Type 0 where
  pub node : DigitalNodeMapping
  pub found : find_node s.node_id nodes ≡ some node
  pub inside : s.offset + s.pixel_count ≤ node.pixel_count

pub check_segment-Fits :
    (nodes : List DigitalNodeMapping) (strips : List Strip) (seen : List ℕ)
    (s : DigitalSegmentMapping)
    → check_segment nodes strips seen s ≡ ok tt
    → Fits nodes s
unfolding check_segment
check_segment-Fits nodes strips seen s h = elim (Option-cases (find_node s.node_id nodes)) [
  | inl e ↦ ground (arith, rw e at h)
  | inr (n, e) ↦ record { node = n; found = e; inside = ground (arith, rw e at h) }
]

pub length-directed : (d : Direction) (ps : List Pixel) → length (directed d ps) ≡ length ps
length-directed forward ps = refl
length-directed reverse ps = length-reversed ps
length-directed other_direction ps = refl

module _ (f : LogicalFrame) (nodes : List DigitalNodeMapping) where
  length-segment_source : (s : DigitalSegmentMapping) → length (segment_source f s) ≡ s.pixel_count
  length-segment_source s =
      length-directed s.direction (fill s.pixel_count (strip_pixels f s.strip_id))
      ∙ length-fill s.pixel_count (strip_pixels f s.strip_id)

  -- Every node has a buffer of its size.
  abbrev pub Sized : Buffers → Type 0
  Sized buffers =
      (k : ℕ) (n : DigitalNodeMapping)
      → find_node k nodes ≡ some n
      → (buffers k ≡ some (buffer_at buffers k)) × (length (buffer_at buffers k) ≡ n.pixel_count)

  -- The segment stands in its node's buffer.
  abbrev pub Shown : Buffers → DigitalSegmentMapping → Type 0
  Shown buffers s =
      (i : ℕ)
      → i < s.pixel_count
      → pixel_at (buffer_at buffers s.node_id) (s.offset + i) ≡ pixel_at (segment_source f s) i

  black_buffers-Sized : Sized (black_buffers nodes)
  black_buffers-Sized k n e = rw e (refl, length-replicate black n.pixel_count)

  -- What a round of the loop leaves.
  abbrev next : DigitalSegmentMapping → Buffers → Buffers
  next s buffers =
      put s.node_id
        (splice s.offset s.pixel_count (segment_source f s) (buffer_at buffers s.node_id)) buffers

  place-ok :
      (s : DigitalSegmentMapping) (buffers : Buffers)
      → Fits nodes s
      → Sized buffers
      → place f s buffers ≡ ok (next s buffers)
  unfolding place
  place-ok s buffers fits sized = rw ((sized s.node_id fits.node fits.found).0) refl

  inside :
      (s : DigitalSegmentMapping) (buffers : Buffers)
      → Fits nodes s
      → Sized buffers
      → s.offset + s.pixel_count ≤ length (buffer_at buffers s.node_id)
  inside s buffers fits sized = omega (arith, fits.inside, (sized s.node_id fits.node fits.found).1)

  next-Sized :
      (s : DigitalSegmentMapping) (buffers : Buffers)
      → Fits nodes s
      → Sized buffers
      → Sized (next s buffers)
  next-Sized s buffers fits sized k n e = elim (Bool-cases (k == s.node_id)) [
    | inl same ↦ rw same (
      refl,
      length-splice s.offset s.pixel_count (segment_source f s) (buffer_at buffers s.node_id)
            (length-segment_source s) (inside s buffers fits sized)
          ∙ (sized s.node_id n (ap (λ (j : ℕ). find_node j nodes) (sym (==→eq _ _ same)) ∙ e)).1,
    )
    | inr other ↦ rw other (sized k n e)
  ]

  next-Shown :
      (s : DigitalSegmentMapping) (buffers : Buffers)
      → Fits nodes s
      → Sized buffers
      → Shown (next s buffers) s
  next-Shown s buffers fits sized i h = rw (==_refl s.node_id) (
      splice-inside s.offset s.pixel_count (segment_source f s) (buffer_at buffers s.node_id) i
        (length-segment_source s) (inside s buffers fits sized) h)

  next_keeps :
      (s t : DigitalSegmentMapping) (buffers : Buffers)
      → Fits nodes s
      → Sized buffers
      → Apart t s
      → Shown buffers t
      → Shown (next s buffers) t
  next_keeps s t buffers fits sized apart shown i h = elim (Bool-cases (t.node_id == s.node_id)) [
    | inl same ↦
        let size = length-segment_source s in
        let room = inside s buffers fits sized in
        let kept : pixel_at (buffer_at buffers s.node_id) (t.offset + i)
            ≡ pixel_at (segment_source f t) i =
          ap (λ (k : ℕ). pixel_at (buffer_at buffers k) (t.offset + i)) (sym (==→eq _ _ same))
          ∙ shown i h in
        rw same (elim (apart (==→eq _ _ same)) [
          | inl before ↦
              splice-before s.offset s.pixel_count (segment_source f s)
                (buffer_at buffers s.node_id) (t.offset + i) room (omega (arith, before, h))
              ∙ kept
          | inr after ↦
              splice-after s.offset s.pixel_count (segment_source f s) (buffer_at buffers s.node_id)
                (t.offset + i) size room (omega (arith, after))
              ∙ kept
        ])
    | inr other ↦ rw other (shown i h)
  ]

  -- What the whole loop leaves, from buffers of the right sizes.
  pub record Placed (ss : List DigitalSegmentMapping) (before : Buffers) : Type 0 where
    pub after : Buffers
    pub returns : place_all f ss before ≡ ok after
    pub sized : Sized after
    pub keeps : (t : DigitalSegmentMapping) → All (Apart t) ss → Shown before t → Shown after t
    pub shows : All (Shown after) ss

  pub place_all-Placed :
      (ss : List DigitalSegmentMapping) (before : Buffers)
      → Sized before
      → All (Fits nodes) ss
      → PairwiseApart ss
      → Placed ss before
  unfolding place_all
  place_all-Placed [] before sized fits apart = record {
    after = before;
    returns = refl;
    sized = sized;
    keeps = λ t a h. h;
    shows = tt;
  }
  place_all-Placed (s ∷ ss) before sized fits apart =
      let p =
        place_all-Placed ss (next s before) (next-Sized s before fits.0 sized) fits.1 apart.1 in
      record {
        after = p.after;
        returns = rw (place-ok s before fits.0 sized) p.returns;
        sized = p.sized;
        keeps = λ t a h. p.keeps t a.1 (next_keeps s t before fits.0 sized a.0 h);
        shows = (p.keeps s apart.0 (next-Shown s before fits.0 sized), p.shows);
      }

  pub from_black :
      (ss : List DigitalSegmentMapping)
      → All (Fits nodes) ss
      → PairwiseApart ss
      → Placed ss (black_buffers nodes)
  from_black ss = place_all-Placed ss (black_buffers nodes) black_buffers-Sized

pub Checked-Fits :
    (nodes : List DigitalNodeMapping) (strips : List Strip) (seen : List ℕ)
    (ss : List DigitalSegmentMapping)
    → Checked nodes strips seen ss
    → All (Fits nodes) ss
Checked-Fits nodes strips seen [] h = tt
Checked-Fits nodes strips seen (s ∷ ss) h = (
  check_segment-Fits nodes strips seen s h.0,
  Checked-Fits nodes strips (s.segment_id ∷ seen) ss h.1,
)
