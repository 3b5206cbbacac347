-- ===== src/PhysicalMapping/Segments.antt =====
-- physical.py: the loop over the segments accepts those whose pixels lie apart, and no others.
use light_belt.Prelude.{
  ℕ, ◌+◌, ◌≤◌, ◌≡◌, ◌↔◌, ◌⊎◌, refl, List, [], ◌∷◌, leb, ◌==◌, arith, Bool-cases, inl, inr, ==→eq,
  leb→le, ok, All, >>=-eq-ok, ◌>>=◌,
}
use light_belt.PhysicalMapping.{
  DigitalNodeMapping, DigitalSegmentMapping, Strip, Occupied, is_occupied, occupy, check_segment,
  check_segments,
}
use light_belt.PhysicalMapping.Claims.{Free, Adds, occupy-Free, Free-occupy}

-- Two segments lie on two nodes, or the one ends before the other begins.
abbrev pub Apart : DigitalSegmentMapping → DigitalSegmentMapping → Type 0
Apart s t =
    s.node_id ≡ t.node_id
    → (s.offset + s.pixel_count ≤ t.offset) ⊎ (t.offset + t.pixel_count ≤ s.offset)

-- Each segment lies apart from all later ones.
abbrev pub PairwiseApart : List DigitalSegmentMapping → Type 0
PairwiseApart [] = Unit {0}
PairwiseApart (s ∷ ss) = All (Apart s) ss × PairwiseApart ss

-- Each segment passes its own checks, after the names before it.
abbrev pub Checked :
    List DigitalNodeMapping → List Strip → List ℕ → List DigitalSegmentMapping → Type 0
Checked nodes strips seen [] = Unit {0}
Checked nodes strips seen (s ∷ ss) =
    (check_segment nodes strips seen s ≡ ok tt) × Checked nodes strips (s.segment_id ∷ seen) ss

abbrev FreeOf : Occupied → DigitalSegmentMapping → Type 0
FreeOf occupied s = Free s.node_id s.offset s.pixel_count occupied

abbrev SomePixels : DigitalSegmentMapping → Type 0
SomePixels s = 1 ≤ s.pixel_count

abbrev AddsSegment : DigitalSegmentMapping → Occupied → Occupied → Type 0
AddsSegment s occupied more = Adds s.node_id s.offset s.pixel_count occupied more

pub check_segment-SomePixels :
    (nodes : List DigitalNodeMapping) (strips : List Strip) (seen : List ℕ)
    (s : DigitalSegmentMapping)
    → check_segment nodes strips seen s ≡ ok tt
    → 1 ≤ s.pixel_count
unfolding check_segment
check_segment-SomePixels nodes strips seen s h = ground (arith, h)

FreeOf-before :
    (s t : DigitalSegmentMapping) (occupied more : Occupied)
    → AddsSegment s occupied more
    → FreeOf more t
    → FreeOf occupied t
FreeOf-before s t occupied more adds free q a b = ground (arith, adds t.node_id q, free q a b)

-- A pixel in both would be occupied by the first, and not be free for the second.
FreeOf-Apart :
    (s t : DigitalSegmentMapping) (occupied more : Occupied)
    → AddsSegment s occupied more
    → SomePixels s
    → SomePixels t
    → FreeOf more t
    → Apart s t
FreeOf-Apart s t occupied more adds some_s some_t free same =
    elim (Bool-cases (leb (s.offset + s.pixel_count) t.offset)) [
      | inl e ↦ inl (leb→le _ _ e)
      | inr e ↦ elim (Bool-cases (leb (t.offset + t.pixel_count) s.offset)) [
        | inl f ↦ inr (leb→le _ _ f)
        | inr f ↦ elim (Bool-cases (leb s.offset t.offset)) [
          | inl g ↦ ground (
            arith,
            adds t.node_id t.offset,
            free t.offset (omega arith) (omega (arith, some_t)),
            same,
            e,
            f,
            g,
            some_s,
          )
          | inr g ↦ ground (
            arith,
            adds t.node_id s.offset,
            free s.offset (ground (arith, g)) (ground (arith, f)),
            same,
            e,
            f,
            g,
            some_s,
          )
        ]
      ]
    ]

FreeOf-after :
    (s t : DigitalSegmentMapping) (occupied more : Occupied)
    → AddsSegment s occupied more
    → Apart s t
    → FreeOf occupied t
    → FreeOf more t
FreeOf-after s t occupied more adds apart free q a b = elim (Bool-cases (s.node_id == t.node_id)) [
  | inl e ↦ elim (apart (==→eq _ _ e)) [
    | inl x ↦ ground (arith, adds t.node_id q, free q a b, x, a)
    | inr y ↦ ground (arith, adds t.node_id q, free q a b, y, b)
  ]
  | inr e ↦ ground (arith, adds t.node_id q, free q a b, e)
]

Checked-SomePixels :
    (nodes : List DigitalNodeMapping) (strips : List Strip) (seen : List ℕ)
    (ss : List DigitalSegmentMapping)
    → Checked nodes strips seen ss
    → All SomePixels ss
Checked-SomePixels nodes strips seen [] h = tt
Checked-SomePixels nodes strips seen (s ∷ ss) h = (
  check_segment-SomePixels nodes strips seen s h.0,
  Checked-SomePixels nodes strips (s.segment_id ∷ seen) ss h.1,
)

all-Apart :
    (s : DigitalSegmentMapping) (occupied more : Occupied)
    → AddsSegment s occupied more
    → SomePixels s
    → (ts : List DigitalSegmentMapping) → All SomePixels ts
    → All (FreeOf more) ts
    → All (FreeOf occupied) ts × All (Apart s) ts
all-Apart s occupied more adds some_s [] k h = (tt, tt)
all-Apart s occupied more adds some_s (t ∷ ts) k h =
    let (free, apart) = all-Apart s occupied more adds some_s ts k.1 h.1 in
    (
      (FreeOf-before s t occupied more adds h.0, free),
      (FreeOf-Apart s t occupied more adds some_s k.0 h.0, apart),
    )

all-FreeOf :
    (s : DigitalSegmentMapping) (occupied more : Occupied)
    → AddsSegment s occupied more
    → (ts : List DigitalSegmentMapping) → All (Apart s) ts
    → All (FreeOf occupied) ts
    → All (FreeOf more) ts
all-FreeOf s occupied more adds [] a h = tt
all-FreeOf s occupied more adds (t ∷ ts) a h =
    (FreeOf-after s t occupied more adds a.0 h.0, all-FreeOf s occupied more adds ts a.1 h.1)

module _ (nodes : List DigitalNodeMapping) (strips : List Strip) where
  accepted :
      (seen : List ℕ) (occupied : Occupied) (ss : List DigitalSegmentMapping)
      → check_segments nodes strips seen occupied ss ≡ ok tt
      → Checked nodes strips seen ss × All (FreeOf occupied) ss × PairwiseApart ss
  unfolding check_segments
  accepted seen occupied [] h = (tt, tt, tt)
  accepted seen occupied (s ∷ ss) h =
      let (_, own, rest) =
        >>=-eq-ok (check_segment nodes strips seen s)
          (λ done.
            occupy s.node_id s.offset s.pixel_count occupied
            >>= (λ more. check_segments nodes strips (s.segment_id ∷ seen) more ss))
          h in
      let (more, occupies, later) =
        >>=-eq-ok (occupy s.node_id s.offset s.pixel_count occupied)
          (λ more. check_segments nodes strips (s.segment_id ∷ seen) more ss) rest in
      let (free, adds) = occupy-Free s.node_id s.offset s.pixel_count occupied more occupies in
      let (checked, frees, aparts) = accepted (s.segment_id ∷ seen) more ss later in
      let (frees', apart) =
        all-Apart s occupied more adds (check_segment-SomePixels nodes strips seen s own) ss
          (Checked-SomePixels nodes strips (s.segment_id ∷ seen) ss checked) frees in
      ((own, checked), (free, frees'), (apart, aparts))

  accepts :
      (seen : List ℕ) (occupied : Occupied) (ss : List DigitalSegmentMapping)
      → Checked nodes strips seen ss
      → All (FreeOf occupied) ss
      → PairwiseApart ss
      → check_segments nodes strips seen occupied ss ≡ ok tt
  unfolding check_segments
  accepts seen occupied [] c f a = refl
  accepts seen occupied (s ∷ ss) c f a =
      let (more, occupies) = Free-occupy s.node_id s.offset s.pixel_count occupied f.0 in
      let (_, adds) = occupy-Free s.node_id s.offset s.pixel_count occupied more occupies in
      rw (c.0, occupies)
        (accepts (s.segment_id ∷ seen) more ss c.1 (all-FreeOf s occupied more adds ss a.0 f.1) a.1)

  free_at_first : (ss : List DigitalSegmentMapping) → All (FreeOf []) ss
  unfolding is_occupied
  free_at_first [] = tt
  free_at_first (s ∷ ss) = ((λ q a b. refl), free_at_first ss)

  -- The loop over the segments, which remembers the pixels in use, accepts exactly the segments that
  -- pass their own checks and of which every two lie on two nodes or in ranges that do not meet.
  pub check_segments_iff :
      (ss : List DigitalSegmentMapping)
      → (check_segments nodes strips [] [] ss ≡ ok tt)
        ↔ (Checked nodes strips [] ss × PairwiseApart ss)
  check_segments_iff ss = (
    λ h. (let (checked, _, apart) = accepted [] [] ss h in (checked, apart)),
    λ h. accepts [] [] ss h.0 (free_at_first ss) h.1,
  )
