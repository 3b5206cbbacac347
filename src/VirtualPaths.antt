-- ===== src/VirtualPaths.antt =====
-- light_engine/mapping/virtual.py: virtual paths, which lay ranges of strips one after the other, with gaps,
-- and split a buffer of the path's length into the ranges. What is read of the configuration is a
-- `RawSegment`, with the defaults put in.
pub mod Laying
pub mod Tiling
mod Examples
use light_belt.Prelude.{
  ℕ, ◌+◌, ◌-◌, Bool, true, false, Option, none, some, List, [], ◌∷◌, ◌++◌, zero, suc, ◌==◌, leb,
  not, is_empty, is_some, if◌then◌else◌, take, drop, length, map, Result, ok, err, value_error,
  config_error, require, ◌>>=◌, ◌>>◌,
}
use light_belt.Prelude.Sets.{elem}
use light_belt.PhysicalMapping.{
  Direction, forward, reverse, other_direction, Strip, find_strip, Occupied, is_occupied,
}

pub record RawSegment : Type 0 where
  pub strip_id : ℕ
  pub source_start : ℕ
  pub pixel_count : ℕ
  pub direction : Direction
  pub gap_after_pixels : ℕ

pub record RawPath : Type 0 where
  pub id : ℕ
  pub segments : List RawSegment

pub record VirtualPathGap : Type 0 where
  pub global_start : ℕ
  pub global_end : ℕ

pub record VirtualPathSegment : Type 0 where
  pub strip_id : ℕ
  pub source_start : ℕ
  pub pixel_count : ℕ
  pub direction : Direction
  pub gap_after_pixels : ℕ
  pub global_start : ℕ
  pub global_end : ℕ

pub record VirtualPath : Type 0 where
  pub id : ℕ
  pub segments : List VirtualPathSegment
  pub gaps : List VirtualPathGap
  pub total_length : ℕ

unfoldable pub mapped_pixel_count : List VirtualPathSegment → ℕ
mapped_pixel_count [] = 0
mapped_pixel_count (s ∷ ss) = s.pixel_count + mapped_pixel_count ss

unfoldable pub gap_coordinate_count : List VirtualPathGap → ℕ
gap_coordinate_count [] = 0
gap_coordinate_count (g ∷ gs) = (g.global_end - g.global_start) + gap_coordinate_count gs

-- `_direction`
abbrev pub check_direction : Direction → Result (Unit {0})
check_direction forward = ok tt
check_direction reverse = ok tt
check_direction other_direction = err config_error

-- `source_end <= strip_lengths[strip_id]`, for a strip that there is
abbrev pub fits_strip : ℕ → Option Strip → Bool
fits_strip source_end none = false
fits_strip source_end (some s) = leb source_end s.pixel_count

-- The loop over the source pixels of a segment.
unfoldable pub claim_sources : ℕ → ℕ → ℕ → Occupied → Result Occupied
claim_sources strip pixel zero used = ok used
claim_sources strip pixel (suc count) used =
    require (not (is_occupied strip pixel used)) config_error
    >> claim_sources strip (pixel + 1) count ((strip, pixel) ∷ used)

-- The checks of a segment before its pixels.
unfoldable pub check_raw : List Strip → RawSegment → Result (Unit {0})
check_raw strips s = do
  require (not (s.strip_id == 0)) config_error
  require (is_some (find_strip s.strip_id strips)) config_error
  require (leb 1 s.pixel_count) config_error
  check_direction s.direction
  require (fits_strip (s.source_start + s.pixel_count) (find_strip s.strip_id strips)) config_error

-- `VirtualPathSegment(...)` at the cursor
abbrev pub segment_at : ℕ → RawSegment → VirtualPathSegment
segment_at cursor s = record {
  strip_id = s.strip_id;
  source_start = s.source_start;
  pixel_count = s.pixel_count;
  direction = s.direction;
  gap_after_pixels = s.gap_after_pixels;
  global_start = cursor;
  global_end = cursor + s.pixel_count;
}

-- The gap after a segment that ends at the cursor, if it has one.
abbrev pub gap_at : ℕ → ℕ → List VirtualPathGap
gap_at cursor count =
    if count == 0 then [] else record { global_start = cursor; global_end = cursor + count } ∷ []

-- What the loop makes: the segments, the gaps and the last cursor.
pub record Built : Type 0 where
  pub segments : List VirtualPathSegment
  pub gaps : List VirtualPathGap
  pub cursor : ℕ

abbrev pub and_built : ℕ → RawSegment → Built → Built
and_built cursor s rest = record {
  segments = segment_at cursor s ∷ rest.segments;
  gaps = gap_at (cursor + s.pixel_count) s.gap_after_pixels ++ rest.gaps;
  cursor = rest.cursor;
}

-- The loop of `_build_virtual_path`.
unfoldable pub build_segments : List Strip → Occupied → ℕ → List RawSegment → Result Built
build_segments strips used cursor [] = ok (record { segments = []; gaps = []; cursor = cursor })
build_segments strips used cursor (s ∷ ss) = do
  check_raw strips s
  more ← claim_sources s.strip_id s.source_start s.pixel_count used
  rest ← build_segments strips more (cursor + s.pixel_count + s.gap_after_pixels) ss
  ok (and_built cursor s rest)

-- `VirtualPath(...)`
abbrev pub path_of : ℕ → Built → VirtualPath
path_of id built = record {
  id = id;
  segments = built.segments;
  gaps = built.gaps;
  total_length = built.cursor;
}

-- `_build_virtual_path`
unfoldable pub build_virtual_path : ℕ → List Strip → List RawSegment → Result VirtualPath
build_virtual_path id strips raw = do built ← build_segments strips [] 0 raw; ok (path_of id built)

-- `build_virtual_paths`, with the names of the paths before.
unfoldable pub build_virtual_paths : List ℕ → List Strip → List RawPath → Result (List VirtualPath)
build_virtual_paths seen strips [] = ok []
build_virtual_paths seen strips (p ∷ ps) = do
  require (not (p.id == 0)) config_error
  require (not (elem p.id seen)) config_error
  require (not (is_empty p.segments)) config_error
  path ← build_virtual_path p.id strips p.segments
  paths ← build_virtual_paths (p.id ∷ seen) strips ps
  ok (path ∷ paths)

pub record StripRangeContribution (T : Type 0) : Type 0 where
  pub strip_id : ℕ
  pub source_start : ℕ
  pub pixels : List T

module _ {T : Type 0} where
  -- `buffer[start:stop]`
  abbrev pub slice : ℕ → ℕ → List T → List T
  slice start stop buffer = take (stop - start) (drop start buffer)

  unfoldable pub turned : List T → List T
  turned [] = []
  turned (x ∷ xs) = turned xs ++ x ∷ []

  abbrev pub along : Direction → List T → List T
  along forward xs = xs
  along reverse xs = turned xs
  along other_direction xs = xs

  abbrev pub contribution : List T → VirtualPathSegment → StripRangeContribution T
  contribution buffer s = record {
    strip_id = s.strip_id;
    source_start = s.source_start;
    pixels = along s.direction (slice s.global_start s.global_end buffer);
  }

  -- `VirtualPath.split`
  unfoldable pub split : VirtualPath → List T → Result (List (StripRangeContribution T))
  split path buffer =
      require (length buffer == path.total_length) value_error
      >> ok (map (contribution buffer) path.segments)

  -- `render_virtual_path`
  unfoldable pub render_virtual_path :
      VirtualPath → (ℕ → Result (List T)) → Result (List (StripRangeContribution T))
  render_virtual_path path renderer = do buffer ← renderer path.total_length; split path buffer
