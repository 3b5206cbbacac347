-- ===== src/PhysicalMapping/Map.antt =====
-- light_engine/mapping/physical.py: `PhysicalMapping.map`, which makes a frame for the nodes of a frame of
-- zones and strips. A colour that is missing is black.
use light_belt.Prelude.{
  ℕ, ◌+◌, ◌-◌, Bool, Option, none, some, List, [], ◌∷◌, ◌++◌, ◌==◌, if◌then◌else◌, map, take, drop,
  length, replicate, Result, ok, err, key_error, ◌>>=◌,
}
use light_belt.Prelude.Sorting.{sort_by}
use light_belt.Wire.Pixels.{Pixel}
use light_belt.Frames.{
  Channels, AnalogNodeCommand, DigitalNodeFrame, DigitalOutputFrame, PhysicalFrame,
}
use light_belt.PhysicalMapping.{
  AnalogNodeMapping, DigitalNodeMapping, DigitalSegmentMapping, DigitalOutputMapping, Direction,
  forward, reverse, other_direction, Layout, dict_get, find_node,
}

pub record ZoneColor : Type 0 where
  pub zone_id : ℕ
  pub color : Channels

pub record StripPixels : Type 0 where
  pub strip_id : ℕ
  pub pixels : List Pixel

-- `PixelFrame`
pub record LogicalFrame : Type 0 where
  pub sequence : ℕ
  pub timestamp_us : ℕ
  pub zones : List ZoneColor
  pub strips : List StripPixels
  pub safe_state : Bool
  pub apply_at_us : Option ℕ

abbrev pub black : Pixel
black = (0, 0, 0)

abbrev pub no_color : Channels
no_color = record { r = 0; g = 0; b = 0; warm_white = 0; cool_white = 0 }

abbrev pub color_of : Option ZoneColor → Channels
color_of none = no_color
color_of (some z) = z.color

abbrev pub analog_command : LogicalFrame → AnalogNodeMapping → AnalogNodeCommand
analog_command f m = record {
  node_id = m.node_id;
  color = color_of (dict_get (λ (z : ZoneColor). z.zone_id) m.zone_id f.zones);
  fade_ms = m.fade_ms;
}

abbrev pub pixels_of : Option StripPixels → List Pixel
pixels_of none = []
pixels_of (some s) = s.pixels

-- The pixels of a strip of the frame.
abbrev pub strip_pixels : LogicalFrame → ℕ → List Pixel
strip_pixels f strip_id = pixels_of (dict_get (λ (s : StripPixels). s.strip_id) strip_id f.strips)

-- The first pixels, and black where there are not so many.
abbrev pub fill : ℕ → List Pixel → List Pixel
fill count pixels =
    let source = take count pixels in source ++ replicate (count - length source) black

-- `list(reversed(...))`
unfoldable pub reversed : List Pixel → List Pixel
reversed [] = []
reversed (p ∷ ps) = reversed ps ++ p ∷ []

abbrev pub directed : Direction → List Pixel → List Pixel
directed forward pixels = pixels
directed reverse pixels = reversed pixels
directed other_direction pixels = pixels

-- The pixels that a segment takes of a frame.
abbrev pub segment_source : LogicalFrame → DigitalSegmentMapping → List Pixel
segment_source f s = directed s.direction (fill s.pixel_count (strip_pixels f s.strip_id))

-- `digital_pixels`, from the number of a node
abbrev pub Buffers : Type 0
Buffers = ℕ → Option (List Pixel)

abbrev pub black_pixels : Option DigitalNodeMapping → Option (List Pixel)
black_pixels none = none
black_pixels (some n) = some (replicate n.pixel_count black)

abbrev pub black_buffers : List DigitalNodeMapping → Buffers
black_buffers nodes node_id = black_pixels (find_node node_id nodes)

-- `dest[offset : offset + count] = source`
abbrev pub splice : ℕ → ℕ → List Pixel → List Pixel → List Pixel
splice offset count source dest = take offset dest ++ source ++ drop (offset + count) dest

abbrev pub put : ℕ → List Pixel → Buffers → Buffers
put node_id pixels buffers k = if k == node_id then some pixels else buffers k

abbrev pub found_buffer : Option (List Pixel) → Result (List Pixel)
found_buffer none = err key_error
found_buffer (some pixels) = ok pixels

-- One round of the loop over the segments.
unfoldable pub place : LogicalFrame → DigitalSegmentMapping → Buffers → Result Buffers
place f s buffers = do
  dest ← found_buffer (buffers s.node_id)
  ok (put s.node_id (splice s.offset s.pixel_count (segment_source f s) dest) buffers)

unfoldable pub place_all : LogicalFrame → List DigitalSegmentMapping → Buffers → Result Buffers
place_all f [] buffers = ok buffers
place_all f (s ∷ ss) buffers = place f s buffers >>= place_all f ss

abbrev pub output_frame : LogicalFrame → DigitalOutputMapping → DigitalOutputFrame
output_frame f m = record {
  output_id = m.output_id;
  gpio = m.gpio;
  pixels = directed m.direction (fill m.pixel_count (strip_pixels f m.strip_id));
}

-- `outputs_by_node`, whose lists grow in the order of the layout
unfoldable pub outputs_by_node :
    LogicalFrame
    → List DigitalOutputMapping
    → (ℕ → List DigitalOutputFrame)
    → ℕ
    → List DigitalOutputFrame
outputs_by_node f [] table = table
outputs_by_node f (m ∷ ms) table =
    outputs_by_node f ms (λ k. if k == m.node_id then table k ++ output_frame f m ∷ [] else table k)

-- The pixels of a node that is not of version 3.
abbrev pub node_pixels : DigitalNodeMapping → Buffers → Result (List Pixel)
node_pixels n buffers = if n.protocol_version == 3 then ok [] else found_buffer (buffers n.node_id)

-- `DigitalNodeFrame(...)`
abbrev pub frame_with :
    (ℕ → List DigitalOutputFrame) → DigitalNodeMapping → List Pixel → DigitalNodeFrame
frame_with table n pixels = record {
  node_id = n.node_id;
  address = n.address;
  enabled = n.enabled;
  pixels = pixels;
  outputs = sort_by (λ (o : DigitalOutputFrame). o.output_id) (table n.node_id);
  max_udp_payload = n.max_udp_payload;
}

unfoldable pub node_frame :
    Buffers → (ℕ → List DigitalOutputFrame) → DigitalNodeMapping → Result DigitalNodeFrame
node_frame buffers table n = do pixels ← node_pixels n buffers; ok (frame_with table n pixels)

unfoldable pub node_frames :
    Buffers
    → (ℕ → List DigitalOutputFrame)
    → List DigitalNodeMapping
    → Result (List DigitalNodeFrame)
node_frames buffers table [] = ok []
node_frames buffers table (n ∷ ns) = do
  frame ← node_frame buffers table n
  frames ← node_frames buffers table ns
  ok (frame ∷ frames)

-- `PhysicalFrame(...)`
abbrev pub physical_frame : Layout → LogicalFrame → List DigitalNodeFrame → PhysicalFrame
physical_frame l f frames = record {
  sequence = f.sequence;
  timestamp_us = f.timestamp_us;
  analog_commands =
      map (analog_command f) (sort_by (λ (m : AnalogNodeMapping). m.node_id) l.analog_nodes);
  digital_frames = frames;
  safe_state = f.safe_state;
  apply_at_us = f.apply_at_us;
}

-- `PhysicalMapping.map`
unfoldable pub map_frame : Layout → LogicalFrame → Result PhysicalFrame
map_frame l f = do
  buffers ← place_all f l.digital_segments (black_buffers l.digital_nodes)
  frames ←
      node_frames buffers (outputs_by_node f l.digital_outputs (λ k. []))
        (sort_by (λ (n : DigitalNodeMapping). n.node_id) l.digital_nodes)
  ok (physical_frame l f frames)
