-- ===== src/PhysicalMapping/Examples.antt =====
-- physical.py: tests with a node of six pixels, on which two strips stand, the second one reversed.
use light_belt.Prelude.{
  ℕ, ◌≡◌, ◌↔◌, refl, Bool, true, false, Option, none, some, List, [], ◌∷◌, All, Result, ok,
}
use light_belt.Prelude.Sorting.{sort_by}
use light_belt.Frames.{PhysicalFrame}
use light_belt.PhysicalMapping.{
  DigitalNodeMapping, DigitalSegmentMapping, Direction, forward, reverse, Strip, Layout, validate,
  check_segments,
}
use light_belt.PhysicalMapping.Map.{LogicalFrame, map_frame}
use light_belt.PhysicalMapping.Segments.{Checked, PairwiseApart, check_segments_iff}
use light_belt.PhysicalMapping.Mapped.{Shows, Pairs, OutputFollows, map_frame-Shows}

abbrev segment : ℕ → ℕ → ℕ → Direction → DigitalSegmentMapping
segment id offset count direction = record {
  segment_id = id;
  strip_id = id;
  node_id = 1;
  offset = offset;
  pixel_count = count;
  direction = direction;
}

abbrev layout : Layout
layout = record {
  topology_version = 2;
  one_output = true;
  zone_ids = [];
  strips = record { id = 1; pixel_count = 4 } ∷ record { id = 2; pixel_count = 2 } ∷ [];
  analog_nodes = [];
  digital_nodes =
      record {
        node_id = 1;
        address = (1, 5000);
        pixel_count = 6;
        max_udp_payload = 1200;
        protocol_version = 2;
        enabled = true;
      }
      ∷ [];
  digital_segments = segment 1 0 4 forward ∷ segment 2 4 2 reverse ∷ [];
  digital_outputs = [];
}

-- The first strip is short in this frame.
abbrev colours : LogicalFrame
colours = record {
  sequence = 5;
  timestamp_us = 100;
  zones = [];
  strips =
      record { strip_id = 1; pixels = (1, 1, 1) ∷ (2, 2, 2) ∷ [] }
      ∷ record { strip_id = 2; pixels = (8, 8, 8) ∷ (9, 9, 9) ∷ [] }
      ∷ [];
  safe_state = false;
  apply_at_us = none;
}

accepted : validate layout ≡ ok tt
unfolding validate light_belt.PhysicalMapping.check_analog_nodes
    light_belt.PhysicalMapping.check_digital_nodes light_belt.Prelude.Sets.elem
    light_belt.PhysicalMapping.any_v3 check_segments light_belt.PhysicalMapping.check_segment
    light_belt.PhysicalMapping.dict_get light_belt.PhysicalMapping.occupy
    light_belt.PhysicalMapping.is_occupied
accepted = refl

map_frame-Shows_example :
    (frame : PhysicalFrame) × (map_frame layout colours ≡ ok frame)
    × Pairs
        (Shows layout colours)
        (sort_by (λ (n : DigitalNodeMapping). n.node_id) layout.digital_nodes)
        frame.digital_frames
    × All (OutputFollows colours) layout.digital_outputs
map_frame-Shows_example = map_frame-Shows layout colours accepted

check_segments_iff_example :
    (check_segments layout.digital_nodes layout.strips [] [] layout.digital_segments ≡ ok tt) ↔ (
      Checked layout.digital_nodes layout.strips [] layout.digital_segments
      × PairwiseApart layout.digital_segments)
check_segments_iff_example =
    check_segments_iff layout.digital_nodes layout.strips layout.digital_segments
