-- ===== src/SimulatorOutput.antt =====
-- light_engine/outputs/simulator_output.py: `SimulatorOutput`, the buffer between the engine's and the
-- simulator's thread. Each method holds the lock, so that it is one step.
pub mod Balance
use light_belt.Prelude.{
  ℕ, ◌+◌, Bool, true, false, Option, none, some, List, [], ◌∷◌, ltb, if◌then◌else◌, length, take,
}

-- The buffer has the latest frame first. `sent` and `dropped` are the counters of the health.
pub record SimulatorOutput (Frame : Type 0) : Type 0 where
  pub is_open : Bool
  pub max_frames : ℕ
  pub buffer : List Frame
  pub frames_sent : ℕ
  pub frames_consumed : ℕ
  pub frames_dropped : ℕ
  pub sent : ℕ
  pub dropped : ℕ

abbrev pub one_if : Bool → ℕ
one_if b = if b then 1 else 0

module _ {Frame : Type 0} where
  -- `deque(maxlen=max_frames).append(frame)`, which discards the oldest frame of a full buffer
  abbrev pub append : ℕ → Frame → List Frame → List Frame
  append max_frames frame buffer = take max_frames (frame ∷ buffer)

  unfoldable pub send_frame : Frame → SimulatorOutput Frame → SimulatorOutput Frame
  send_frame frame s =
      let buffer = append s.max_frames frame s.buffer in
      let overwritten = one_if (ltb 1 (length buffer)) in
      record s {
        buffer = buffer;
        frames_sent = s.frames_sent + 1;
        sent = s.sent + 1;
        frames_dropped = s.frames_dropped + overwritten;
        dropped = s.dropped + overwritten;
      }

  abbrev pub pop_from : List Frame → SimulatorOutput Frame → Option Frame × SimulatorOutput Frame
  pop_from [] s = (none, s)
  pop_from (frame ∷ older) s =
      (some frame, record s { buffer = []; frames_consumed = s.frames_consumed + 1 })

  unfoldable pub pop_latest : SimulatorOutput Frame → Option Frame × SimulatorOutput Frame
  pop_latest s = pop_from s.buffer s

  unfoldable pub open_output : SimulatorOutput Frame → SimulatorOutput Frame
  open_output s = record s { is_open = true }

  unfoldable pub close_output : SimulatorOutput Frame → SimulatorOutput Frame
  close_output s = record s { buffer = []; is_open = false }
