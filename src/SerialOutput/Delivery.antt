-- ===== src/SerialOutput/Delivery.antt =====
-- serial_output.py and rs485_v2.py: what `SerialOutputV2` writes in MEMORY mode, and what a stream
-- parser reads of it.
use light_belt.Prelude.{
  ℕ, ◌+◌, ◌%◌, ◌≤◌, ◌≡◌, ◌∙◌, refl, sym, ap, ap₂, Bool, false, none, some, List, [], ◌∷◌, ◌++◌,
  append_assoc, append-nil, map, join, arith, Result, ok, err, length, length-append, length-map,
  All, ◌*◌,
}
use light_belt.Prelude.Actions.{modify, handle, resume}
use light_belt.Prelude.Sorting.{Ordered, sort_by, sort_by-All, sort_by-Ordered, length-sort_by}
use light_belt.SerialOutput.Commands.{asked, IsSendable}
use light_belt.Frames.{AnalogNodeCommand, PhysicalFrame}
use light_belt.Rs485.{Rs485v2Packet, feed}
use light_belt.Rs485
use light_belt.Rs485.Stream.{idle}
use light_belt.Rs485.Frames.{frames, sent, IsFor, length-encode, feed-frames}
use light_belt.Transport.{Mode, memory}
use light_belt.SerialOutput.{
  PortWorld, SerialOutput, count_packet, count_frame, flush_failed, command_packet, sorted_commands,
  encode_commands, encode_frame, write_by, write_packet, write_packets, send_popped, flush_latest,
}

encode_commands-ok :
    (frame : PhysicalFrame) (cs : List AnalogNodeCommand)
    → All (IsSendable frame) cs
    → encode_commands frame cs ≡ ok (map (λ c. Rs485.encode (command_packet frame c)) cs)
unfolding encode_commands
encode_commands-ok frame [] h = refl
encode_commands-ok frame (c ∷ cs) h = rw (h.0, encode_commands-ok frame cs h.1)

-- The bytes of the packets, one after the other.
encoded : PhysicalFrame → List AnalogNodeCommand → List (List ℕ)
encoded frame cs = map (λ c. Rs485.encode (command_packet frame c)) cs

join-encoded :
    (frame : PhysicalFrame) (cs : List AnalogNodeCommand)
    → join (encoded frame cs) ≡ frames (map (asked frame) cs)
unfolding encoded
join-encoded frame [] = refl
join-encoded frame (c ∷ cs) =
    ap (◌++◌ (Rs485.encode (command_packet frame c))) (join-encoded frame cs)

length-encoded :
    (frame : PhysicalFrame) (cs : List AnalogNodeCommand) → length (encoded frame cs) ≡ length cs
unfolding encoded
length-encoded frame cs = length-map (λ c. Rs485.encode (command_packet frame c)) cs

length-frames :
    (frame : PhysicalFrame) (cs : List AnalogNodeCommand)
    → length (frames (map (asked frame) cs)) ≡ 16 * length cs
length-frames frame [] = refl
length-frames frame (c ∷ cs) = omega (
  arith,
  length-append (Rs485.encode (asked frame c)) (frames (map (asked frame) cs)),
  length-encode (asked frame c),
  length-frames frame cs,
)

-- The low byte of a sequence is its own low byte.
map-sent :
    (frame : PhysicalFrame) (cs : List AnalogNodeCommand)
    → map sent (map (asked frame) cs) ≡ map (asked frame) cs
map-sent frame [] = refl
map-sent frame (c ∷ cs) =
    ap₂ ◌∷◌
      (ap (λ (n : ℕ). record (asked frame c) { sequence = n })
        (let e : frame.sequence % 256 % 256 ≡ frame.sequence % 256 = omega arith in e))
      (map-sent frame cs)

all-IsFor :
    (frame : PhysicalFrame) (cs : List AnalogNodeCommand)
    → All (IsSendable frame) cs
    → All (IsFor none) (map (asked frame) cs)
all-IsFor frame [] h = tt
all-IsFor frame (c ∷ cs) h = ((h.0, refl), all-IsFor frame cs h.1)

module _ {W : Type 0} (w : PortWorld W) where
  -- A state whose packets go to memory.
  abbrev InMemory : SerialOutput W → Type 0
  InMemory s = (s.mode ≡ memory) × (s.has_transport ≡ false)

  write_packet-InMemory :
      (packet : List ℕ) (s : SerialOutput W)
      → InMemory s
      → write_packet w packet s
        ≡ (ok tt, record s { memory_transport = s.memory_transport ++ packet })
  unfolding write_packet
  write_packet-InMemory packet s h = ap₂ (λ (m : Mode) (b : Bool). write_by w packet m b s) h.0 h.1

  -- What a run of the writing loop leaves.
  abbrev Wrote : List (List ℕ) → SerialOutput W → Result (Unit {0}) × SerialOutput W → Type 0
  Wrote packets s (r, t) =
      (r ≡ ok tt)
      × (t.memory_transport ≡ s.memory_transport ++ join packets)
      × (t.health.packets_sent ≡ s.health.packets_sent + length packets)
      × (t.health.logical_frames_sent ≡ s.health.logical_frames_sent)

  write_packets-Wrote :
      (packets : List (List ℕ)) (s : SerialOutput W)
      → InMemory s
      → Wrote packets s (write_packets w packets s)
  unfolding write_packets
  write_packets-Wrote [] s h = (refl, sym (append-nil s.memory_transport), omega arith, refl)
  write_packets-Wrote (packet ∷ packets) s h =
      let next : SerialOutput W =
        count_packet (record s { memory_transport = s.memory_transport ++ packet }) in
      let (returns, wrote, counted, frames_kept) = write_packets-Wrote packets next h in
      rw (write_packet-InMemory packet s h) (
        returns,
        wrote ∙ append_assoc s.memory_transport packet (join packets),
        omega (arith, counted),
        frames_kept,
      )

  -- The end of a flush whose packets were written.
  Done : List (List ℕ) → SerialOutput W → Result (Unit {0}) × SerialOutput W → Type 0
  Done packets s (r, t) =
      (r ≡ ok tt)
      × (t.memory_transport ≡ s.memory_transport ++ join packets)
      × (t.health.packets_sent ≡ s.health.packets_sent + length packets)
      × (t.health.logical_frames_sent ≡ s.health.logical_frames_sent + 1)

  finish :
      (packets : List (List ℕ)) (s : SerialOutput W) (r : Result (Unit {0}) × SerialOutput W)
      → Wrote packets s r
      → Done packets s (handle (flush_failed w) (resume (λ done. modify count_frame) r))
  unfolding Done
  finish packets s (ok done, t) h = (refl, h.1, h.2, omega (arith, h.3))
  finish packets s (err e, t) h = cc

  flush-Done :
      (s : SerialOutput W) (frame : PhysicalFrame)
      → InMemory s
      → s.queue ≡ some frame
      → All (IsSendable frame) frame.analog_commands
      → Done (encoded frame (sorted_commands frame)) s (flush_latest w s)
  unfolding flush_latest send_popped encode_frame encoded Done
  flush-Done s frame h queued valid =
      let start : SerialOutput W = record s { queue = none } in
      let cs = sorted_commands frame in
      let each_valid =
        sort_by-All (λ (c : AnalogNodeCommand). c.node_id) (IsSendable frame) frame.analog_commands
          valid in
      rw (queued, encode_commands-ok frame cs each_valid)
        (finish (encoded frame cs) start (write_packets w (encoded frame cs) start)
          (write_packets-Wrote (encoded frame cs) start h))

  -- In MEMORY mode without a transport, a frame whose commands the packet constructor accepts raises
  -- nothing and counts as one frame sent and as one packet for each command. A stream parser with an
  -- empty buffer and no node of its own, with room for 16 bytes for each command, reads from the bytes
  -- written exactly the packets that the frame's commands ask for, of which `asked` says the fields:
  -- they are in the order of the nodes, commands for one node in the order of the frame.
  pub serial_round_trip :
      (s : SerialOutput W) (frame : PhysicalFrame) (limit valid invalid : ℕ)
      → s.mode ≡ memory
      → s.has_transport ≡ false
      → s.queue ≡ some frame
      → All (IsSendable frame) frame.analog_commands
      → 16 * length frame.analog_commands ≤ limit
      → (bytes : List ℕ) × (cs : List AnalogNodeCommand) × ((flush_latest w s).0 ≡ ok tt)
        × ((flush_latest w s).1.memory_transport ≡ s.memory_transport ++ bytes)
        × ((flush_latest w s).1.health.packets_sent
            ≡ s.health.packets_sent + length frame.analog_commands)
        × ((flush_latest w s).1.health.logical_frames_sent ≡ s.health.logical_frames_sent + 1)
        × Ordered (λ (c : AnalogNodeCommand). c.node_id) frame.analog_commands cs
        × (feed (idle none limit valid invalid) bytes
            ≡ some (idle none limit (valid + length cs) invalid, map (asked frame) cs))
  unfolding Done
  serial_round_trip s frame limit valid invalid m t queued sendable room =
      let (returns, wrote, sent, counted) = flush-Done s frame (m, t) queued sendable in
      let node = λ (c : AnalogNodeCommand). c.node_id in
      let cs = sort_by node frame.analog_commands in
      let each_valid = sort_by-All node (IsSendable frame) frame.analog_commands sendable in
      let same : length cs ≡ length frame.analog_commands =
        length-sort_by node frame.analog_commands in
      let fed =
        feed-frames none limit valid invalid (map (asked frame) cs) (all-IsFor frame cs each_valid)
          (omega (arith, length-frames frame cs, same, room)) in
      (
        frames (map (asked frame) cs),
        cs,
        returns,
        wrote ∙ ap (◌++◌ s.memory_transport) (join-encoded frame cs),
        omega (arith, sent, length-encoded frame cs, same),
        counted,
        sort_by-Ordered node frame.analog_commands,
        rw (map-sent frame cs, length-map (asked frame) cs) at fed,
      )
