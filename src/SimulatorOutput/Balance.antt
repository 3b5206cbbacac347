-- ===== src/SimulatorOutput/Balance.antt =====
-- simulator_output.py: with room for two frames, a frame that was sent is consumed, dropped or waits.
use light_belt.Prelude.{ap, ℕ, zero, suc, ◌+◌, ◌≤◌, ◌≡◌, refl, List, [], ◌∷◌, ltb, length, arith}
use light_belt.SimulatorOutput.{SimulatorOutput, append, one_if, send_frame, pop_latest, pop_from}

-- The frames that still wait to be seen: the latest one, if there is one.
abbrev pub waiting : {Frame : Type 0} → List Frame → ℕ
waiting [] = 0
waiting (frame ∷ older) = 1

abbrev pub IsBalanced : {Frame : Type 0} → SimulatorOutput Frame → Type 0
IsBalanced s =
    (2 ≤ s.max_frames) × (s.frames_sent ≡ s.frames_consumed + s.frames_dropped + waiting s.buffer)

module _ {Frame : Type 0} where
  one_more :
      (n : ℕ) (frame : Frame) (buffer : List Frame)
      → 2 ≤ n
      → waiting buffer + 1
        ≡ one_if (ltb 1 (length (append n frame buffer))) + waiting (append n frame buffer)
  one_more zero frame buffer h = ground (arith, h)
  one_more (suc zero) frame buffer h = ground (arith, h)
  one_more (suc (suc k)) frame [] h = refl
  one_more (suc (suc k)) frame (x ∷ older) h = ground arith

  -- `send_frame` keeps the balance of the counters.
  pub send_frame-IsBalanced :
      (frame : Frame) (s : SimulatorOutput Frame) → IsBalanced s → IsBalanced (send_frame frame s)
  unfolding send_frame
  send_frame-IsBalanced frame s h =
      (h.0, omega (arith, h.1, one_more s.max_frames frame s.buffer h.0))

  pop_from-IsBalanced :
      (s : SimulatorOutput Frame) (buffer : List Frame)
      → s.buffer ≡ buffer
      → IsBalanced s
      → IsBalanced (pop_from buffer s).1
  pop_from-IsBalanced s [] e h = h
  pop_from-IsBalanced s (frame ∷ older) e h = (h.0, omega (arith, h.1, ap waiting e))

  -- So does `pop_latest`.
  pub pop_latest-IsBalanced :
      (s : SimulatorOutput Frame) → IsBalanced s → IsBalanced (pop_latest s).1
  unfolding pop_latest
  pop_latest-IsBalanced s h = pop_from-IsBalanced s s.buffer refl h
