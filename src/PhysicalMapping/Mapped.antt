-- ===== src/PhysicalMapping/Mapped.antt =====
-- physical.py: what a frame that `map` makes shows, for a layout that was accepted.
use light_belt.Prelude.{
  ℕ, ◌+◌, ◌-◌, ◌<◌, ◌≡◌, ◌∙◌, refl, sym, ap, true, false, List, [], ◌∷◌, arith, length, map, ◌++◌,
  append-nil, append_assoc, Bool-cases, inl, inr, ◌==◌, All, Result-cases, ok, if◌then◌else◌,
}
use light_belt.Prelude.Sorting.{sort_by, sort_by-All}
use light_belt.Wire.Pixels.{Pixel}
use light_belt.Frames.{DigitalNodeFrame, DigitalOutputFrame, PhysicalFrame}
use light_belt.PhysicalMapping.{
  DigitalNodeMapping, DigitalSegmentMapping, DigitalOutputMapping, Direction, forward, reverse,
  other_direction, Layout, outputs_at, check_digital_nodes, check_analog_nodes, check_segments,
  validate,
}
use light_belt.PhysicalMapping.Map.{
  LogicalFrame, Buffers, fill, directed, strip_pixels, output_frame, outputs_by_node, frame_with,
  node_frame, node_frames, physical_frame, map_frame,
}
use light_belt.PhysicalMapping.Pixels.{pixel_at, length-fill, pixel_at-fill, pixel_at-reversed}
use light_belt.PhysicalMapping.Segments.{check_segments_iff}
use light_belt.PhysicalMapping.Kept.{
  Sized, Shown, from_black, Checked-Fits, buffer_at, length-directed,
}
use light_belt.PhysicalMapping.Found.{IsFound, all-IsFound}

-- The pixel of a strip that a pixel of its segment shows.
abbrev pub source_index : Direction → ℕ → ℕ → ℕ
source_index forward count i = i
source_index reverse count i = count - 1 - i
source_index other_direction count i = i

-- Pixel `i` of `ps` shows a strip of the frame, from its first `count` pixels.
abbrev pub Follows : LogicalFrame → ℕ → Direction → ℕ → List Pixel → ℕ → Type 0
Follows f strip_id direction count ps first =
    (i : ℕ)
    → i < count
    → pixel_at ps (first + i) ≡ pixel_at (strip_pixels f strip_id) (source_index direction count i)

pixel_at-directed :
    (d : Direction) (count : ℕ) (ps : List Pixel) (i : ℕ)
    → i < count
    → pixel_at (directed d (fill count ps)) i ≡ pixel_at ps (source_index d count i)
pixel_at-directed forward count ps i h = pixel_at-fill count ps i h
pixel_at-directed reverse count ps i h =
    pixel_at-reversed (fill count ps) i (omega (arith, length-fill count ps, h))
    ∙ ap (λ (n : ℕ). pixel_at (fill count ps) (n - 1 - i)) (length-fill count ps)
    ∙ pixel_at-fill count ps (count - 1 - i) (omega (arith, h))
pixel_at-directed other_direction count ps i h = pixel_at-fill count ps i h

outputs_by_node-outputs_at :
    (f : LogicalFrame) (ms : List DigitalOutputMapping) (table : ℕ → List DigitalOutputFrame)
    (k : ℕ)
    → outputs_by_node f ms table k ≡ table k ++ map (output_frame f) (outputs_at k ms)
unfolding outputs_by_node outputs_at
outputs_by_node-outputs_at f [] table k = sym (append-nil (table k))
outputs_by_node-outputs_at f (m ∷ ms) table k =
    outputs_by_node-outputs_at f ms
      (λ j. if j == m.node_id then table j ++ output_frame f m ∷ [] else table j) k
    ∙ here
  where
    here :
        (if k == m.node_id then table k ++ output_frame f m ∷ [] else table k)
          ++ map (output_frame f) (outputs_at k ms)
        ≡ table k
          ++ map (output_frame f) (if m.node_id == k then m ∷ outputs_at k ms else outputs_at k ms)
    here = elim (Bool-cases (m.node_id == k)) [
      | inl e ↦
          rw (e, let g : (k == m.node_id) ≡ true = ground (arith, e) in g)
            (append_assoc (table k) (output_frame f m ∷ [])
              (map (output_frame f) (outputs_at k ms)))
      | inr e ↦ rw (e, let g : (k == m.node_id) ≡ false = ground (arith, e) in g) refl
    ]

-- What the frame of a node shows.
pub record Shows (l : Layout) (f : LogicalFrame) (n : DigitalNodeMapping) (d : DigitalNodeFrame)
    : Type 0 where
  pub node_id : d.node_id ≡ n.node_id
  pub address : d.address ≡ n.address
  pub enabled : d.enabled ≡ n.enabled
  pub max_udp_payload : d.max_udp_payload ≡ n.max_udp_payload
  pub no_pixels : n.protocol_version == 3 ≡ true → d.pixels ≡ []
  pub size : n.protocol_version == 3 ≡ false → length d.pixels ≡ n.pixel_count
  pub segments :
      n.protocol_version == 3 ≡ false
      → All
          (λ (s : DigitalSegmentMapping).
            s.node_id ≡ n.node_id
            → Follows f s.strip_id s.direction s.pixel_count d.pixels s.offset)
          l.digital_segments
  pub outputs :
      d.outputs
      ≡ sort_by
          (λ (o : DigitalOutputFrame). o.output_id)
          (map (output_frame f) (outputs_at n.node_id l.digital_outputs))

-- The pixels of an output show its strip.
abbrev pub OutputFollows : LogicalFrame → DigitalOutputMapping → Type 0
OutputFollows f m =
    (length (output_frame f m).pixels ≡ m.pixel_count)
    × Follows f m.strip_id m.direction m.pixel_count (output_frame f m).pixels 0

all-OutputFollows : (f : LogicalFrame) (ms : List DigitalOutputMapping) → All (OutputFollows f) ms
all-OutputFollows f [] = tt
all-OutputFollows f (m ∷ ms) = (
  (
    length-directed m.direction (fill m.pixel_count (strip_pixels f m.strip_id))
        ∙ length-fill m.pixel_count (strip_pixels f m.strip_id),
    λ i h.
        ap (pixel_at (output_frame f m).pixels) (let e : 0 + i ≡ i = omega arith in e)
        ∙ pixel_at-directed m.direction m.pixel_count (strip_pixels f m.strip_id) i h,
  ),
  all-OutputFollows f ms,
)

-- The items of two lists, pair by pair.
abbrev pub Pairs : {A B : Type 0} → (A → B → Type 0) → List A → List B → Type 0
Pairs R [] [] = Unit {0}
Pairs R [] (y ∷ ys) = ⊥
Pairs R (x ∷ xs) [] = ⊥
Pairs R (x ∷ xs) (y ∷ ys) = R x y × Pairs R xs ys

module _ (l : Layout) (f : LogicalFrame) (buffers : Buffers) where
  abbrev table : ℕ → List DigitalOutputFrame
  table = outputs_by_node f l.digital_outputs (λ k. [])

  segments_follow :
      (n : DigitalNodeMapping) (ss : List DigitalSegmentMapping)
      → All (Shown f l.digital_nodes buffers) ss
      → All
          (λ (s : DigitalSegmentMapping).
            s.node_id ≡ n.node_id
            → Follows f s.strip_id s.direction s.pixel_count (buffer_at buffers n.node_id) s.offset)
          ss
  segments_follow n [] h = tt
  segments_follow n (s ∷ ss) h = (
    λ same i k.
        ap (λ (j : ℕ). pixel_at (buffer_at buffers j) (s.offset + i)) (sym same)
        ∙ h.0 i k
        ∙ pixel_at-directed s.direction s.pixel_count (strip_pixels f s.strip_id) i k,
    segments_follow n ss h.1,
  )

  sorted_outputs :
      (n : DigitalNodeMapping)
      → sort_by (λ (o : DigitalOutputFrame). o.output_id) (table n.node_id)
        ≡ sort_by
            (λ (o : DigitalOutputFrame). o.output_id)
            (map (output_frame f) (outputs_at n.node_id l.digital_outputs))
  sorted_outputs n =
      ap (sort_by (λ (o : DigitalOutputFrame). o.output_id))
        (outputs_by_node-outputs_at f l.digital_outputs (λ k. []) n.node_id)

  node_frame-Shows :
      (n : DigitalNodeMapping)
      → Sized f l.digital_nodes buffers
      → All (Shown f l.digital_nodes buffers) l.digital_segments
      → IsFound l.digital_nodes n
      → (d : DigitalNodeFrame) × (node_frame buffers table n ≡ ok d) × Shows l f n d
  unfolding node_frame
  node_frame-Shows n sized shown found = elim (Bool-cases (n.protocol_version == 3)) [
    | inl e ↦ (
      frame_with table n [],
      rw e refl,
      record {
        node_id = refl;
        address = refl;
        enabled = refl;
        max_udp_payload = refl;
        no_pixels = λ h. refl;
        size = λ h. ground (arith, e, h);
        segments = λ h. ground (arith, e, h);
        outputs = sorted_outputs n;
      },
    )
    | inr e ↦ (
      frame_with table n (buffer_at buffers n.node_id),
      rw (e, (sized n.node_id n found).0) refl,
      record {
        node_id = refl;
        address = refl;
        enabled = refl;
        max_udp_payload = refl;
        no_pixels = λ h. ground (arith, e, h);
        size = λ h. (sized n.node_id n found).1;
        segments = λ h. segments_follow n l.digital_segments shown;
        outputs = sorted_outputs n;
      },
    )
  ]

  node_frames-Shows :
      (ns : List DigitalNodeMapping)
      → Sized f l.digital_nodes buffers
      → All (Shown f l.digital_nodes buffers) l.digital_segments
      → All (IsFound l.digital_nodes) ns
      → (ds : List DigitalNodeFrame) × (node_frames buffers table ns ≡ ok ds)
        × Pairs (Shows l f) ns ds
  unfolding node_frames
  node_frames-Shows [] sized shown found = ([], refl, tt)
  node_frames-Shows (n ∷ ns) sized shown found =
      let (d, made, shows) = node_frame-Shows n sized shown found.0 in
      let (ds, all_made, all_show) = node_frames-Shows ns sized shown found.1 in
      (d ∷ ds, rw (made, all_made) refl, (shows, all_show))

-- An accepted layout has digital nodes and segments that pass their loops.
validate-parts :
    (l : Layout)
    → validate l ≡ ok tt
    → (used : List ℕ) × (check_digital_nodes used l.digital_nodes ≡ ok tt)
      × (check_segments l.digital_nodes l.strips [] [] l.digital_segments ≡ ok tt)
unfolding validate
validate-parts l h = elim (Result-cases (check_analog_nodes l.zone_ids [] l.analog_nodes)) [
  | inl (used, e) ↦ (used, ground (arith, rw e at h), ground (arith, rw e at h))
  | inr (x, e) ↦ ([], ground (arith, rw e at h), ground (arith, rw e at h))
]

-- A layout that `_validate` accepts maps every frame, without an exception. The nodes' frames stand in
-- the order of the node numbers. In the frame of a node that is not of version 3 each segment of the node stands
-- whole at its offset, as no other segment covers it: its pixels are those of the strip, in the
-- segment's direction, and black where the strip of the frame is short or missing. Each output of a
-- node of version 3 has its number of pixels, which show its strip in the same way.
pub map_frame-Shows :
    (l : Layout) (f : LogicalFrame)
    → validate l ≡ ok tt
    → (frame : PhysicalFrame) × (map_frame l f ≡ ok frame)
      × Pairs
          (Shows l f)
          (sort_by (λ (n : DigitalNodeMapping). n.node_id) l.digital_nodes)
          frame.digital_frames
      × All (OutputFollows f) l.digital_outputs
unfolding map_frame
map_frame-Shows l f accepted =
    let (used, nodes_pass, segments_pass) = validate-parts l accepted in
    let (checked, apart) =
      (check_segments_iff l.digital_nodes l.strips l.digital_segments).0 segments_pass in
    let p =
      from_black f l.digital_nodes l.digital_segments
        (Checked-Fits l.digital_nodes l.strips [] l.digital_segments checked) apart in
    let found =
      sort_by-All (λ (n : DigitalNodeMapping). n.node_id) (IsFound l.digital_nodes) l.digital_nodes
        (all-IsFound used l.digital_nodes nodes_pass) in
    let (ds, made, shows) =
      node_frames-Shows l f p.after
        (sort_by (λ (n : DigitalNodeMapping). n.node_id) l.digital_nodes) p.sized p.shows found in
    (physical_frame l f ds, rw (p.returns, made) refl, shows, all-OutputFollows f l.digital_outputs)
