-- ===== src/Samples.antt =====
-- A frame and outputs for the tests of the outputs. The world is a number, which every call raises
-- by one: it is the clock, in milliseconds, and the socket raises when it stands at 3.
use light_belt.Prelude.{
  ℕ, ◌+◌, ◌*◌, ◌==◌, true, false, none, some, [], ◌∷◌, if◌then◌else◌, Result, ok, err, os_error,
}
use light_belt.Outputs.{OutputHealth}
use light_belt.Frames.{DigitalNodeFrame, AnalogNodeCommand, PhysicalFrame}
use light_belt.Transport.{Mode, Reason, Sender, World}
use light_belt.UdpOutputV3.{UdpOutputV3}

abbrev call : {A : Type 0} → A → ℕ → Result A × ℕ
call a n = (ok a, n + 1)

abbrev pub world : World ℕ
world = record {
  create_socket = call tt;
  sendto = λ d n. (if n == 3 then err os_error else ok tt, n + 1);
  close_socket = call tt;
  enable_broadcast = call tt;
  monotonic_us = λ n. (ok (1000 * n), n + 1);
  sleep_us = λ us. call tt;
}

abbrev pub healthy : OutputHealth Reason
healthy = record {
  healthy = true;
  last_error = none;
  logical_frames_submitted = 0;
  logical_frames_sent = 0;
  packets_sent = 0;
  frames_dropped = 0;
  packets_dropped = 0;
}

abbrev pub node : ℕ → DigitalNodeFrame
node n = record {
  node_id = n;
  address = (n, 5000);
  enabled = true;
  pixels = (1, 2, 3) ∷ (4, 5, 250) ∷ [];
  outputs = record { output_id = 1; gpio = 4; pixels = (1, 2, 3) ∷ [] } ∷ [];
  max_udp_payload = 1200;
}

abbrev command : ℕ → AnalogNodeCommand
command n = record {
  node_id = n;
  color = record { r = 10; g = 20; b = 30; warm_white = 40; cool_white = 50 };
  fade_ms = 200;
}

abbrev pub frame : PhysicalFrame
frame = record {
  sequence = 1;
  timestamp_us = 40_000;
  analog_commands = command 3 ∷ command 2 ∷ [];
  digital_frames = node 1 ∷ node 2 ∷ [];
  safe_state = false;
  apply_at_us = none;
}

-- An output with the frame in its queue.
abbrev pub sender : Mode → Sender ℕ
sender mode = record {
  world = 2;
  mode = mode;
  injected = false;
  has_socket = true;
  owns_socket = true;
  is_open = true;
  auto_flush = true;
  health = healthy;
  sent_datagrams = [];
  queue = some frame;
}

-- A scheduled output with two addresses for beacons, at the begin of a session.
abbrev pub scheduled : Mode → UdpOutputV3 ℕ
scheduled mode = record {
  base = sender mode;
  scheduled_apply = true;
  lead_us = 5000;
  session_start_repeats = 3;
  session_start_spacing_us = 2000;
  beacon_addresses = (1, 5001) ∷ (2, 5001) ∷ [];
  beacon_interval_us = 1_000_000;
  startup_beacons = 3;
  startup_beacon_spacing_us = 1000;
  needs_key_frame = true;
  next_beacon_sequence = 1;
  last_beacon_us = none;
  last_clock_read_us = none;
}

-- A frame whose one node has a channel out of range.
abbrev pub too_bright : PhysicalFrame
too_bright = record frame { digital_frames = record (node 1) { pixels = (1, 2, 300) ∷ [] } ∷ [] }
