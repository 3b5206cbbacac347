-- ===== src/Outputs/Examples.antt =====
-- outputs/__init__.py: tests with devices that are numbers, of which the number 9 fails.
use light_belt.Prelude.{
  ℕ, ◌+◌, ◌≡◌, refl, Bool, true, false, Option, none, some, List, [], ◌∷◌, ◌==◌, if◌then◌else◌,
  length,
}
use light_belt.Outputs.{Output, Driver, queue_length, send_all, open_all}
use light_belt.Outputs.Sending.{Outcome, send_all-Outcome}
use light_belt.Outputs.Opening.{Opens, open_all_outcome}
use light_belt.Outputs.Queue.{
  Call, put, take_out, run, start, delivered, overwritten, staying, queue_keeps_latest,
}

-- A call that fails with the error 1 on the device 9, and else adds to the device's number.
abbrev attempt : ℕ → Output ℕ ℕ → Output ℕ ℕ × Option ℕ
attempt n o = if o.device == 9 then (o, some 1) else (record o { device = o.device + n }, none)

abbrev counting : Driver ℕ ℕ ℕ
counting = record {
  open_output = attempt 100;
  send_frame = λ o frame. attempt frame o;
  close_output = attempt 1000;
}

abbrev device : Bool → ℕ → Output ℕ ℕ
device production n = record {
  device = n;
  health = record {
    healthy = true;
    last_error = none;
    logical_frames_submitted = 0;
    logical_frames_sent = 0;
    packets_sent = 0;
    frames_dropped = 0;
    packets_dropped = 0;
  };
  production = production;
}

abbrev devices : List (Output ℕ ℕ)
devices = device false 9 ∷ device true 1 ∷ device true 9 ∷ device true 2 ∷ []

send_all-Outcome_example : Outcome counting false 5 devices (send_all counting false 5 devices)
send_all-Outcome_example = send_all-Outcome counting false 5 devices

open_all_outcome_example : Opens counting [] devices (open_all counting devices)
open_all_outcome_example = open_all_outcome counting devices

send_raises : (send_all counting false 5 devices).1 ≡ some 1
unfolding send_all light_belt.Outputs.after_send
send_raises = refl

safe_state_raises_nothing : (send_all counting true 5 devices).1 ≡ none
unfolding send_all light_belt.Outputs.after_send
safe_state_raises_nothing = refl

open_raises : (open_all counting devices).1 ≡ some 1
unfolding open_all light_belt.Outputs.after_open
open_raises = refl

abbrev calls : List (Call ℕ)
calls = put 1 ∷ put 2 ∷ take_out ∷ take_out ∷ put 3 ∷ []

queue_keeps_latest_example :
    ((run start calls).popped ≡ delivered calls)
    × ((run start calls).dropped ≡ length (overwritten calls))
    × ((run start calls).queue ≡ staying calls)
    × ((run start calls).pushed
        ≡ (run start calls).dropped
          + length (run start calls).popped
          + queue_length (run start calls).queue)
queue_keeps_latest_example = queue_keeps_latest calls
