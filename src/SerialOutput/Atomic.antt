-- ===== src/SerialOutput/Atomic.antt =====
-- serial_output.py: a frame is encoded whole before its first byte is written.
use light_belt.Prelude.{
  ℕ, ◌+◌, ◌≡◌, false, none, some, List, [], ◌∷◌, arith, Error, Result, ok, err, Result-cases, inl,
  inr, >>=-eq-ok, All, if◌then◌else◌,
}
use light_belt.Prelude
use light_belt.Prelude.Sorting.{All-sort_by}
use light_belt.Frames.{AnalogNodeCommand, PhysicalFrame}
use light_belt.Rs485
use light_belt.Transport.{is_production, send_error}
use light_belt.SerialOutput.{
  PortWorld, SerialOutput, command_packet, encode_commands, encode_frame, flush_failed,
  flush_latest, send_popped,
}
use light_belt.SerialOutput.Commands.{IsSendable}

all-IsSendable :
    (frame : PhysicalFrame) (cs : List AnalogNodeCommand) (packets : List (List ℕ))
    → encode_commands frame cs ≡ ok packets
    → All (IsSendable frame) cs
unfolding encode_commands
all-IsSendable frame [] packets h = tt
all-IsSendable frame (c ∷ cs) packets h =
    let (_, made, later) =
      >>=-eq-ok (Rs485.post_init (command_packet frame c))
        (λ done.
          Prelude.◌>>=◌ (encode_commands frame cs)
            (λ packets. ok (Rs485.encode (command_packet frame c) ∷ packets)))
        h in
    let (rest, encoded, _) =
      >>=-eq-ok (encode_commands frame cs)
        (λ packets. ok (Rs485.encode (command_packet frame c) ∷ packets)) later in
    (made, all-IsSendable frame cs rest encoded)

module _ {W : Type 0} (w : PortWorld W) where
  -- If the packet constructor refuses one of the frame's commands, wherever that stands, then nothing
  -- of the frame is written, in no mode: the port, the bytes in memory and the number of packets are
  -- as before. The queue is empty after, the frame is counted as dropped and not as sent, and the
  -- exception is the last error. In production it comes out and the output is unhealthy; else the call
  -- returns and the output's health is as it was.
  pub nothing_written :
      (s : SerialOutput W) (frame : PhysicalFrame)
      → s.queue ≡ some frame
      → ¬ All (IsSendable frame) frame.analog_commands
      → (e : Error) × ((flush_latest w s).0 ≡ (if is_production s.mode then err e else ok tt))
        × ((flush_latest w s).1 ≡ record s {
          queue = none;
          health = record s.health {
            healthy = if is_production s.mode then false else s.health.healthy;
            last_error = some (send_error e);
            frames_dropped = s.health.frames_dropped + 1;
          };
        })
  unfolding flush_latest send_popped flush_failed encode_frame
  nothing_written s frame queued broken = elim (Result-cases (encode_frame frame)) [
    | inl (packets, e) ↦ absurd (
        broken (
          All-sort_by (λ (c : AnalogNodeCommand). c.node_id) (IsSendable frame)
            frame.analog_commands (all-IsSendable frame _ packets e)))
    | inr (x, e) ↦ (x, rw (queued, e) (ground arith), rw (queued, e) (ground arith))
  ]
