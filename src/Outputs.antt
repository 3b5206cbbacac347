-- ===== src/Outputs.antt =====
-- light_engine/outputs/__init__.py: the queue of one frame, the health of an output, and the calls that
-- run over all outputs. The concrete outputs are a parameter, a `Driver`: what their `open`,
-- `send_frame` and `close` do to an output, and the exception that they raise, if any.
use light_belt.Prelude.{
  ℕ, ◌+◌, Bool, true, false, Option, none, some, List, [], ◌∷◌, ◌++◌, not, ◌&&◌, is_some,
  if◌then◌else◌,
}
pub mod Sending
pub mod Opening
pub mod Queue
mod Examples

-- `push` of LatestFrameQueue: the queue after it, and whether an older frame was overwritten.
abbrev pub push {ℓ} : {Frame : Type ℓ} → Option Frame → Frame → Option Frame × Bool
push queue frame = (some frame, is_some queue)

abbrev pub pop_latest {ℓ} : {Frame : Type ℓ} → Option Frame → Option Frame × Option Frame
pop_latest queue = (none, queue)

-- `__len__`
abbrev pub queue_length {ℓ} : {Frame : Type ℓ} → Option Frame → ℕ
queue_length queue = if is_some queue then 1 else 0

-- The time of the last success is not kept here: no decision reads it.
pub record OutputHealth (Failure : Type 0) : Type 0 where
  pub healthy : Bool
  pub last_error : Option Failure
  pub logical_frames_submitted : ℕ
  pub logical_frames_sent : ℕ
  pub packets_sent : ℕ
  pub frames_dropped : ℕ
  pub packets_dropped : ℕ

-- An output: its device's own state, its health, and whether its mode is PRODUCTION.
pub record Output (Device Failure : Type 0) : Type 0 where
  pub device : Device
  pub health : OutputHealth Failure
  pub production : Bool

pub record Driver (Device Failure Frame : Type 0) : Type 0 where
  pub open_output : Output Device Failure → Output Device Failure × Option Failure
  pub send_frame : Output Device Failure → Frame → Output Device Failure × Option Failure
  pub close_output : Output Device Failure → Output Device Failure × Option Failure

module _ {Device Failure : Type 0} where
  -- `health.logical_frames_submitted += 1`
  abbrev pub submitted : Output Device Failure → Output Device Failure
  submitted o = record o {
    health = record o.health { logical_frames_submitted = o.health.logical_frames_submitted + 1 };
  }

  -- `health.healthy = False` and `health.last_error = str(e)`
  abbrev pub failed : Output Device Failure → Failure → Output Device Failure
  failed o e = record o { health = record o.health { healthy = false; last_error = some e } }

  -- An output after a call that may have raised.
  abbrev pub settled : Output Device Failure × Option Failure → Output Device Failure
  settled (o, none) = o
  settled (o, some e) = failed o e

  abbrev pub prepend :
      Output Device Failure
      → List (Output Device Failure) × Option Failure
      → List (Output Device Failure) × Option Failure
  prepend o (os, raised) = (o ∷ os, raised)

module _ {Device Failure Frame : Type 0} (d : Driver Device Failure Frame) where
  -- The end of a round of `send_all`: an exception of an output in production ends the loop, unless
  -- the frame is the safe state.
  unfoldable pub after_send :
      Bool
      → Output Device Failure × Option Failure
      → List (Output Device Failure)
      → List (Output Device Failure) × Option Failure
      → List (Output Device Failure) × Option Failure
  after_send safe_state (o, none) os rest = prepend o rest
  after_send safe_state (o, some e) os rest =
      if o.production && not safe_state
      then (failed o e ∷ os, some e)
      else prepend (failed o e) rest

  -- The outputs after the call, and the exception that it raises.
  unfoldable pub send_all :
      Bool → Frame → List (Output Device Failure) → List (Output Device Failure) × Option Failure
  send_all safe_state frame [] = ([], none)
  send_all safe_state frame (o ∷ os) =
      let rest = send_all safe_state frame os in
      if not o.health.healthy && not safe_state
      then prepend (submitted o) rest
      else after_send safe_state (d.send_frame (submitted o) frame) os rest

  -- `close_all`: exceptions are swallowed.
  unfoldable pub close_all : List (Output Device Failure) → List (Output Device Failure)
  close_all [] = []
  close_all (o ∷ os) = (d.close_output o).0 ∷ close_all os

  -- The rollback of `open_all`: what was opened is closed, the last one first, and a failure to
  -- close is logged only. The flag of an output says whether it is in `opened`.
  unfoldable pub roll_back : List (Output Device Failure × Bool) → List (Output Device Failure)
  roll_back [] = []
  roll_back ((o, opened) ∷ os) = (if opened then (d.close_output o).0 else o) ∷ roll_back os

  abbrev pub unflagged : List (Output Device Failure × Bool) → List (Output Device Failure)
  unflagged [] = []
  unflagged ((o, opened) ∷ os) = o ∷ unflagged os

  -- The end of a round of `open_all`, with the outputs before the current one, and the rounds after.
  unfoldable pub after_open :
      List (Output Device Failure × Bool)
      → List (Output Device Failure)
      → (List (Output Device Failure × Bool) → List (Output Device Failure) × Option Failure)
      → Output Device Failure × Option Failure
      → List (Output Device Failure) × Option Failure
  after_open before os later (p, none) = later (before ++ (p, true) ∷ [])
  after_open before os later (p, some e) =
      let rest = later (before ++ (failed p e, false) ∷ []) in
      if p.production then (roll_back before ++ failed p e ∷ os, some e) else rest

  unfoldable pub open_from :
      List (Output Device Failure × Bool)
      → List (Output Device Failure)
      → List (Output Device Failure) × Option Failure
  open_from before [] = (unflagged before, none)
  open_from before (o ∷ os) =
      after_open before os (λ further. open_from further os) (d.open_output o)

  unfoldable pub open_all :
      List (Output Device Failure) → List (Output Device Failure) × Option Failure
  unfolding open_from
  open_all outputs = open_from [] outputs
