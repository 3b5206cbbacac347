-- ===== src/VirtualPaths/Tiling.antt =====
-- virtual.py: a split buffer can be put together again.
use light_belt.Prelude.{
  ℕ, ◌+◌, ◌-◌, ◌≤◌, ◌≡◌, ◌∙◌, refl, sym, ap, List, [], ◌∷◌, ◌++◌, arith, take, drop, length, map,
  take-take-drop, drop-drop, take_all, eq→==, ok-injective, ok, >>=-eq-ok,
}
use mathlib.Core.List.{reverse-cons, reverse-reverse}
use mathlib.Core.List
use light_belt.PhysicalMapping.{Direction, forward, reverse, other_direction, Strip}
use light_belt.VirtualPaths.{
  RawSegment, VirtualPathSegment, VirtualPath, StripRangeContribution, mapped_pixel_count,
  gap_coordinate_count, build_segments, build_virtual_path, path_of, slice, turned, along,
  contribution, split,
}
use light_belt.VirtualPaths.Laying.{Tiles, GapsAfter, configured, build_segments-Laid, Tiles-le}

module _ {T : Type 0} where
  turned-reverse : (xs : List T) → turned xs ≡ List.reverse xs
  unfolding turned
  turned-reverse [] = refl
  turned-reverse (x ∷ xs) =
      ap (λ (zs : List T). zs ++ x ∷ []) (turned-reverse xs) ∙ sym (reverse-cons x xs)

  -- The pixels of a contribution in the direction of the path.
  abbrev pub path_order : Direction → List T → List T
  path_order reverse xs = List.reverse xs
  path_order forward xs = xs
  path_order other_direction xs = xs

  path_order-along : (d : Direction) (xs : List T) → path_order d (along d xs) ≡ xs
  path_order-along forward xs = refl
  path_order-along reverse xs = ap List.reverse (turned-reverse xs) ∙ reverse-reverse xs
  path_order-along other_direction xs = refl

  slice-slice :
      (a m e : ℕ) (buffer : List T)
      → a ≤ m
      → m ≤ e
      → slice a m buffer ++ slice m e buffer ≡ slice a e buffer
  slice-slice a m e buffer h k =
      ap (λ (xs : List T). slice a m buffer ++ take (e - m) xs)
        (sym (
          drop-drop (m - a) a buffer
          ∙ ap (λ (n : ℕ). drop n buffer) (let f : a + (m - a) ≡ m = omega (arith, h) in f)))
      ∙ take-take-drop (m - a) (e - m) (drop a buffer)
      ∙ ap (λ (n : ℕ). take n (drop a buffer))
          (let f : m - a + (e - m) ≡ e - a = omega (arith, h, k) in f)

  -- A buffer put together of the contributions, each in the direction of the path, and of what the
  -- buffer has in the gaps.
  abbrev pub restored : List T → List VirtualPathSegment → List (StripRangeContribution T) → List T
  restored buffer [] cs = []
  restored buffer (s ∷ ss) [] = []
  restored buffer (s ∷ ss) (c ∷ cs) =
      path_order s.direction c.pixels
      ++ (slice s.global_end (s.global_end + s.gap_after_pixels) buffer ++ restored buffer ss cs)

  restored-slice :
      (buffer : List T) (cursor stop : ℕ) (ss : List VirtualPathSegment)
      → Tiles cursor ss stop
      → restored buffer ss (map (contribution buffer) ss) ≡ slice cursor stop buffer
  restored-slice buffer cursor stop [] h =
      ap (λ (n : ℕ). take n (drop cursor buffer))
        (let e : 0 ≡ stop - cursor = omega (arith, h) in e)
  restored-slice buffer cursor stop (s ∷ ss) h =
      let next = cursor + s.pixel_count + s.gap_after_pixels in
      let below = Tiles-le next stop ss h.2 in
      rw
        (
          path_order-along s.direction (slice s.global_start s.global_end buffer),
          restored-slice buffer next stop ss h.2,
          h.1,
          h.0,
        )
        (ap (λ (xs : List T). slice cursor (cursor + s.pixel_count) buffer ++ xs)
            (slice-slice (cursor + s.pixel_count) next stop buffer (omega arith) below)
          ∙ slice-slice cursor (cursor + s.pixel_count) stop buffer (omega arith)
              (omega (arith, below)))

-- The ranges of the strips that the contributions are for.
abbrev pub contributed : {T : Type 0} → StripRangeContribution T → ℕ × ℕ
contributed c = (c.strip_id, c.source_start)

abbrev pub wanted : RawSegment → ℕ × ℕ
wanted s = (s.strip_id, s.source_start)

map-contributed :
    {T : Type 0} (buffer : List T) (ss : List VirtualPathSegment)
    → map contributed (map (contribution buffer) ss) ≡ map wanted (map configured ss)
map-contributed buffer [] = refl
map-contributed buffer (s ∷ ss) =
    ap (λ (rest : List (ℕ × ℕ)). (s.strip_id, s.source_start) ∷ rest) (map-contributed buffer ss)

-- What a path that was built is, and what its split makes of a buffer.
pub record Splits {T : Type 0} (raw : List RawSegment) (path : VirtualPath) (buffer : List T)
    : Type 0 where
  pub segments : map configured path.segments ≡ raw
  pub tiles : Tiles 0 path.segments path.total_length
  pub gaps : GapsAfter path.segments path.gaps
  pub total : path.total_length ≡ mapped_pixel_count path.segments + gap_coordinate_count path.gaps
  pub contributions : List (StripRangeContribution T)
  pub made : split path buffer ≡ ok contributions
  pub ranges : map contributed contributions ≡ map wanted raw
  pub whole : restored buffer path.segments contributions ≡ buffer

-- A path that was built has the configured segments, and these and their gaps tile its length in
-- order: the path's gaps are the intervals between a segment's end and the next segment, where the
-- configuration asks for some. Its length is that of the segments and the gaps together. A buffer of
-- that length is split without an exception, into a contribution for each configured range; the
-- contributions, each turned back if its segment is reversed, make the buffer again together with what
-- it has in the gaps, so that no coordinate is lost, used twice or moved.
pub split_restores :
    {T : Type 0} (id : ℕ) (strips : List Strip) (raw : List RawSegment) (path : VirtualPath)
    (buffer : List T)
    → build_virtual_path id strips raw ≡ ok path
    → length buffer ≡ path.total_length
    → Splits raw path buffer
unfolding build_virtual_path split
split_restores id strips raw path buffer h size =
    let (built, made, e) =
      >>=-eq-ok (build_segments strips [] 0 raw) (λ built. ok (path_of id built)) h in
    let laid = build_segments-Laid strips [] 0 raw built made in
    let same : path_of id built ≡ path = ok-injective e in
    let whole : length buffer ≡ built.cursor = rw (← same) at size in
    rw (← same) (record {
      segments = laid.same;
      tiles = laid.tiles;
      gaps = laid.gaps;
      total = omega (arith, laid.total);
      contributions = map (contribution buffer) built.segments;
      made = rw (eq→== _ _ whole) refl;
      ranges = map-contributed buffer built.segments ∙ ap (map wanted) laid.same;
      whole =
          restored-slice buffer 0 built.cursor built.segments laid.tiles
          ∙ take_all (built.cursor - 0) buffer (omega (arith, whole));
    })
