-- ===== src/SerialOutput.antt =====
-- light_engine/outputs/serial_output.py: `SerialOutputV2`, which writes the analog commands of the
-- latest frame to an RS-485 port. The port's driver is a parameter, a `PortWorld`.
pub mod Commands
pub mod Delivery
pub mod Atomic
mod Examples
use light_belt.Prelude.{
  ℕ, ◌+◌, Bool, true, false, Option, none, some, List, [], ◌∷◌, ◌++◌, not, ◌&&◌, if◌then◌else◌,
  Error, Result, ok, err, runtime_error,
}
use light_belt.Prelude
use light_belt.Prelude.Bits.{low_bits}
use light_belt.Prelude.Actions.{
  Action, pure, raise, gets, modify, of_result, ◌>>=◌, ◌>>◌, attempt, when, on_part, returned,
  handle, resume,
}
use light_belt.Prelude.Sorting.{sort_by}
use light_belt.Outputs.{OutputHealth, push, pop_latest}
use light_belt.Frames.{AnalogNodeCommand, PhysicalFrame}
use light_belt.Rs485
use light_belt.Rs485.{Rs485v2Packet}
use light_belt.Transport.{
  Mode, production, memory, fake, is_production, Reason, not_open, unavailable, send_error,
}

pub record PortWorld (W : Type 0) : Type 0 where
  pub open_port : Action W (Unit {0})
  pub write : List ℕ → Action W (Unit {0})
  pub close_port : Action W (Unit {0})

-- `has_transport` says that `_transport` is not None.
pub record SerialOutput (W : Type 0) : Type 0 where
  pub world : W
  pub mode : Mode
  pub has_transport : Bool
  pub owns_transport : Bool
  pub is_open : Bool
  pub auto_flush : Bool
  pub health : OutputHealth Reason
  pub memory_transport : List ℕ
  pub queue : Option PhysicalFrame

-- `RS485v2Packet(...)` for a command
abbrev pub command_packet : PhysicalFrame → AnalogNodeCommand → Rs485v2Packet
command_packet frame c = record {
  node_id = c.node_id;
  sequence = low_bits frame.sequence 8;
  r = c.color.r;
  g = c.color.g;
  b = c.color.b;
  warm_white = c.color.warm_white;
  cool_white = c.color.cool_white;
  fade_ms = c.fade_ms;
  flags = if frame.safe_state then 0x01 else 0;
  command = 0x01;
}

-- `sorted(frame.analog_commands, key=lambda item: item.node_id)`
abbrev pub sorted_commands : PhysicalFrame → List AnalogNodeCommand
sorted_commands frame = sort_by (λ (c : AnalogNodeCommand). c.node_id) frame.analog_commands

unfoldable pub encode_commands : PhysicalFrame → List AnalogNodeCommand → Result (List (List ℕ))
encode_commands frame [] = ok []
encode_commands frame (c ∷ cs) = Prelude.◌>>◌ (Rs485.post_init (command_packet frame c)) (
    Prelude.◌>>=◌ (encode_commands frame cs)
      (λ packets. ok (Rs485.encode (command_packet frame c) ∷ packets)))

-- `_encode_frame`
unfoldable pub encode_frame : PhysicalFrame → Result (List (List ℕ))
encode_frame frame = encode_commands frame (sorted_commands frame)

module _ {W : Type 0} where
  abbrev pub on_health :
      (OutputHealth Reason → OutputHealth Reason) → SerialOutput W → SerialOutput W
  on_health f s = record s { health = f s.health }

  abbrev pub set_error : Reason → SerialOutput W → SerialOutput W
  set_error reason = on_health (λ h. record h { last_error = some reason })

  abbrev pub set_unhealthy : SerialOutput W → SerialOutput W
  set_unhealthy = on_health (λ h. record h { healthy = false })

  abbrev pub drop_frame : SerialOutput W → SerialOutput W
  drop_frame = on_health (λ h. record h { frames_dropped = h.frames_dropped + 1 })

  abbrev pub count_packet : SerialOutput W → SerialOutput W
  count_packet = on_health (λ h. record h { packets_sent = h.packets_sent + 1 })

  abbrev pub count_frame : SerialOutput W → SerialOutput W
  count_frame = on_health (λ h. record h { logical_frames_sent = h.logical_frames_sent + 1 })

  abbrev pub of_world : {A : Type 0} → Action W A → Action (SerialOutput W) A
  of_world = on_part (λ (s : SerialOutput W). s.world) (λ v s. record s { world = v })

  abbrev pub written : List ℕ → SerialOutput W → SerialOutput W
  written packet s = record s { memory_transport = s.memory_transport ++ packet }

module _ {W : Type 0} (w : PortWorld W) where
  abbrev pub write_transport : List ℕ → Bool → Action (SerialOutput W) (Unit {0})
  write_transport packet has = if has then of_world (w.write packet) else raise runtime_error

  -- `_write_packet` by its mode and transport
  abbrev pub write_by : List ℕ → Mode → Bool → Action (SerialOutput W) (Unit {0})
  write_by packet fake has = pure tt
  write_by packet memory has =
      if not has then modify (written packet) else write_transport packet has
  write_by packet production has = write_transport packet has

  unfoldable pub write_packet : List ℕ → Action (SerialOutput W) (Unit {0})
  write_packet packet s = write_by packet s.mode s.has_transport s

  unfoldable pub write_packets : List (List ℕ) → Action (SerialOutput W) (Unit {0})
  write_packets [] = pure tt
  write_packets (packet ∷ packets) = do
    write_packet packet
    modify count_packet
    write_packets packets

  -- The handler of the flush.
  unfoldable pub flush_failed : Error → Action (SerialOutput W) (Unit {0})
  flush_failed e = do
    modify (λ s. set_error (send_error e) (drop_frame s))
    mode ← gets (λ (s : SerialOutput W). s.mode)
    if is_production mode then (do modify set_unhealthy; raise e) else pure tt

  unfoldable pub send_popped : Option PhysicalFrame → Action (SerialOutput W) (Unit {0})
  send_popped none = pure tt
  send_popped (some frame) =
      attempt
        (do packets ← of_result (encode_frame frame); write_packets packets; modify count_frame)
        flush_failed

  unfoldable pub flush_latest : Action (SerialOutput W) (Unit {0})
  flush_latest s =
      let (queue, frame) = pop_latest s.queue in send_popped frame (record s { queue = queue })

  -- An output that is not open drops the frame, and raises nothing in any mode.
  unfoldable pub send_frame : PhysicalFrame → Action (SerialOutput W) (Unit {0})
  send_frame frame s =
      if not s.is_open
      then pure tt (set_error not_open (drop_frame s))
      else (let (queue, overwritten) = push s.queue frame in
          let queued : SerialOutput W = record s { queue = queue } in
          let counted : SerialOutput W = if overwritten then drop_frame queued else queued in
          if s.auto_flush then flush_latest counted else pure tt counted)

  unfoldable pub open_output : Action (SerialOutput W) (Unit {0})
  open_output = do
    s ← gets (λ (s : SerialOutput W). s)
    when (not s.has_transport && is_production s.mode) (
        attempt
          (do
            of_world w.open_port
            modify (λ s. record s { has_transport = true; owns_transport = true }))
          (λ e. do modify (λ s. set_error (unavailable e) (set_unhealthy s)); raise runtime_error))
    modify (λ s. record s { is_open = true })

  unfoldable pub close_output : Action (SerialOutput W) (Unit {0})
  close_output = do
    s ← gets (λ (s : SerialOutput W). s)
    when (s.owns_transport && s.has_transport) (attempt (of_world w.close_port) (λ e. pure tt))
    modify (λ s. record s { has_transport = false; owns_transport = false; is_open = false })
