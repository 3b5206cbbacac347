-- ===== src/Frames.antt =====
-- light_engine/mapping/physical.py: the frames for physical nodes, which the outputs send. A channel
-- stands here as what the outputs make of it first, `round(c * 255)`, and the time stamp as
-- `int(round(t * 1_000_000))`. A host name is a number, which is only compared and handed on.
use light_belt.Prelude.{ℕ, Bool, Option, List}
use light_belt.Wire.Pixels.{Pixel}

-- `(host, port)`
abbrev pub Address : Type 0
Address = ℕ × ℕ

pub record DigitalOutputFrame : Type 0 where
  pub output_id : ℕ
  pub gpio : ℕ
  pub pixels : List Pixel

pub record DigitalNodeFrame : Type 0 where
  pub node_id : ℕ
  pub address : Address
  pub enabled : Bool
  pub pixels : List Pixel
  pub outputs : List DigitalOutputFrame
  pub max_udp_payload : ℕ

-- `RGBCCTColor.to_uint8()`
pub record Channels : Type 0 where
  pub r : ℕ
  pub g : ℕ
  pub b : ℕ
  pub warm_white : ℕ
  pub cool_white : ℕ

pub record AnalogNodeCommand : Type 0 where
  pub node_id : ℕ
  pub color : Channels
  pub fade_ms : ℕ

-- Of the metadata, `safe_state` is `metadata.get("SAFE_STATE") is True`, and `apply_at_us` the entry
-- of that name.
pub record PhysicalFrame : Type 0 where
  pub sequence : ℕ
  pub timestamp_us : ℕ
  pub analog_commands : List AnalogNodeCommand
  pub digital_frames : List DigitalNodeFrame
  pub safe_state : Bool
  pub apply_at_us : Option ℕ
