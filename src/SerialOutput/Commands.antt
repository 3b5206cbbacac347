-- ===== src/SerialOutput/Commands.antt =====
-- serial_output.py: which packet a command of a frame asks for, written out.
use light_belt.Prelude.{◌%◌, ◌≡◌, refl, if◌then◌else◌, ok}
use light_belt.Frames.{AnalogNodeCommand, PhysicalFrame}
use light_belt.Rs485.{Rs485v2Packet}
use light_belt.Rs485
use light_belt.SerialOutput.{command_packet}

-- The colour and the fade of the command, for its node, with the frame's number modulo 256; the first
-- flag marks the safe state.
abbrev pub asked : PhysicalFrame → AnalogNodeCommand → Rs485v2Packet
asked frame c = record {
  node_id = c.node_id;
  sequence = frame.sequence % 256;
  r = c.color.r;
  g = c.color.g;
  b = c.color.b;
  warm_white = c.color.warm_white;
  cool_white = c.color.cool_white;
  fade_ms = c.fade_ms;
  flags = if frame.safe_state then 1 else 0;
  command = 1;
}

-- A command whose packet the constructor accepts.
abbrev pub IsSendable : PhysicalFrame → AnalogNodeCommand → Type 0
IsSendable frame c = Rs485.post_init (asked frame c) ≡ ok tt

pub command_packet-asked :
    (frame : PhysicalFrame) (c : AnalogNodeCommand) → command_packet frame c ≡ asked frame c
command_packet-asked frame c = refl
