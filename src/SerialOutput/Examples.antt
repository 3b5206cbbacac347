-- ===== src/SerialOutput/Examples.antt =====
-- serial_output.py: tests of `SerialOutputV2` with two commands, and with one that has no place on the bus.
use light_belt.Prelude.{
  ℕ, ◌+◌, ◌≡◌, refl, Bool, true, false, none, some, List, [], ◌∷◌, ◌++◌, length, ok, err, Error,
  map, arith, All,
}
use light_belt.Frames.{AnalogNodeCommand, PhysicalFrame}
use light_belt.Transport.{Mode, production, memory, send_error}
use light_belt.Rs485.{feed}
use light_belt.Rs485.Stream.{idle}
use light_belt.Samples.{healthy, frame}
use light_belt.SerialOutput.{PortWorld, SerialOutput, flush_latest}
use light_belt.SerialOutput.Atomic.{nothing_written}
use light_belt.SerialOutput.Commands.{asked, IsSendable}
use light_belt.SerialOutput.Delivery.{serial_round_trip}
use light_belt.Prelude.Sorting.{Ordered}

-- A port that counts its calls.
abbrev port : PortWorld ℕ
port = record {
  open_port = λ n. (ok tt, n + 1);
  write = λ bytes n. (ok tt, n + 1);
  close_port = λ n. (ok tt, n + 1);
}

abbrev output : Mode → Bool → PhysicalFrame → SerialOutput ℕ
output mode has queued = record {
  world = 0;
  mode = mode;
  has_transport = has;
  owns_transport = has;
  is_open = true;
  auto_flush = true;
  health = healthy;
  memory_transport = 9 ∷ [];
  queue = some queued;
}

-- A node number that does not fit its byte, after two that do.
abbrev broken : PhysicalFrame
broken = record frame {
  analog_commands =
      record {
        node_id = 300;
        color = record { r = 10; g = 20; b = 30; warm_white = 40; cool_white = 50 };
        fade_ms = 200;
      }
      ∷ frame.analog_commands;
}

has_no_place : ¬ All (IsSendable broken) broken.analog_commands
unfolding light_belt.Rs485.post_init
has_no_place h = ground (arith, h.0)

nothing_written_example :
    (e : Error) × ((flush_latest port (output production true broken)).0 ≡ err e)
    × ((flush_latest port (output production true broken)).1
        ≡ record (output production true broken) {
          queue = none;
          health = record healthy {
            healthy = false;
            last_error = some (send_error e);
            frames_dropped = 1;
          };
        })
nothing_written_example =
    nothing_written port (output production true broken) broken refl has_no_place

sendable : All (IsSendable frame) frame.analog_commands
unfolding light_belt.Rs485.post_init
sendable = (refl, (refl, tt))

serial_round_trip_example :
    (bytes : List ℕ) × (cs : List AnalogNodeCommand) × ((flush_latest port
        (output memory false frame)).0
      ≡ ok tt)
    × ((flush_latest port (output memory false frame)).1.memory_transport ≡ (9 ∷ []) ++ bytes)
    × ((flush_latest port (output memory false frame)).1.health.packets_sent ≡ 0 + 2)
    × ((flush_latest port (output memory false frame)).1.health.logical_frames_sent ≡ 0 + 1)
    × Ordered (λ (c : AnalogNodeCommand). c.node_id) frame.analog_commands cs
    × (feed (idle none 200 3 0) bytes
        ≡ some (idle none 200 (3 + length cs) 0, map (asked frame) cs))
serial_round_trip_example =
    serial_round_trip port (output memory false frame) frame 200 3 0 refl refl refl sendable
      (omega arith)
