-- ===== src/VirtualPaths/Examples.antt =====
-- virtual.py: a test with a path over two strips, the first one reversed and followed by a gap of one pixel.
use light_belt.Prelude.{ℕ, ◌≡◌, refl, List, [], ◌∷◌, ok}
use light_belt.PhysicalMapping.{forward, reverse, Strip}
use light_belt.VirtualPaths.{
  RawSegment, VirtualPath, StripRangeContribution, build_virtual_path, mapped_pixel_count,
  gap_coordinate_count, split,
}
use light_belt.VirtualPaths.Tiling.{Splits, split_restores}

abbrev strips : List Strip
strips = record { id = 1; pixel_count = 4 } ∷ record { id = 2; pixel_count = 3 } ∷ []

abbrev raw : List RawSegment
raw =
    record {
      strip_id = 1;
      source_start = 1;
      pixel_count = 2;
      direction = reverse;
      gap_after_pixels = 1;
    }
    ∷ record {
      strip_id = 2;
      source_start = 0;
      pixel_count = 3;
      direction = forward;
      gap_after_pixels = 0;
    }
    ∷ []

abbrev path : VirtualPath
path = record {
  id = 9;
  segments =
      record {
        strip_id = 1;
        source_start = 1;
        pixel_count = 2;
        direction = reverse;
        gap_after_pixels = 1;
        global_start = 0;
        global_end = 2;
      }
      ∷ record {
        strip_id = 2;
        source_start = 0;
        pixel_count = 3;
        direction = forward;
        gap_after_pixels = 0;
        global_start = 3;
        global_end = 6;
      }
      ∷ [];
  gaps = record { global_start = 2; global_end = 3 } ∷ [];
  total_length = 6;
}

abbrev buffer : List ℕ
buffer = 10 ∷ 11 ∷ 12 ∷ 13 ∷ 14 ∷ 15 ∷ []

builds : build_virtual_path 9 strips raw ≡ ok path
unfolding build_virtual_path light_belt.VirtualPaths.build_segments
    light_belt.VirtualPaths.check_raw light_belt.PhysicalMapping.dict_get
    light_belt.VirtualPaths.claim_sources light_belt.PhysicalMapping.is_occupied
builds = refl

split_restores_example : Splits raw path buffer
split_restores_example = split_restores 9 strips raw path buffer builds refl
