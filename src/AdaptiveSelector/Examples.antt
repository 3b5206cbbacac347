-- ===== src/AdaptiveSelector/Examples.antt =====
-- adaptive_selector.py: tests with a cue whose calm effect is 1 and whose impact effect is 2. The confirmation
-- takes 3 ticks and an effect is held for 10.
use light_belt.Prelude.{ℕ, ◌≡◌, refl, true, Option, none, some, List, [], ◌∷◌, All, ok, arith}
use light_belt.AdaptiveSelector.{
  MusicState, calm, impact, silence, flowing, rhythmic, energetic, transition, ambient, Control,
  Audio, Cue, Selector, reset, SelectionDecision, hold_time, cooldown_time, evaluate, evaluate_all,
  effect_for_state,
}
use light_belt.AdaptiveSelector.Spacing.{Spaced, switch_times, switches_are_apart}
use light_belt.AdaptiveSelector.Steady.{Sees, steady_state_selects}

abbrev effect_of : MusicState → Option ℕ
effect_of silence = none
effect_of calm = some 1
effect_of flowing = none
effect_of rhythmic = none
effect_of energetic = none
effect_of impact = some 2
effect_of transition = none
effect_of ambient = none

abbrev cue : Cue
cue = record { allowed = effect_of; fallback = 9; transition_hold = 0; transition_cooldown = 5 }

abbrev audio : Audio
audio = record {
  tempo_off = true;
  tempo_confidence_min = 500;
  beat_regularity_min = 500;
  state_confirmation = 3;
  min_effect_hold = 10;
  switch_cooldown = 0;
}

abbrev sound : ℕ → ℕ → Control
sound energy transient = record {
  tempo_bpm = 0;
  tempo_confidence = 0;
  beat_strength = 0;
  beat_regularity = 0;
  energy = energy;
  energy_trend_size = 0;
  transient = transient;
  bass_ambient = 0;
  bass_pulse = 0;
  spectral_motion = 0;
}

abbrev calm_music : Control
calm_music = sound 100 0

abbrev loud_music : Control
loud_music = sound 300 900

abbrev played : List (ℕ × Control)
played = (0, calm_music) ∷ (12, loud_music) ∷ (16, loud_music) ∷ (17, calm_music) ∷ []

switches_are_apart_example :
    (decisions : List SelectionDecision) × ((s : Selector) × (evaluate_all cue audio played reset
        ≡ ok (decisions, s))
      × Spaced (hold_time cue audio) none (switch_times decisions)
      × Spaced (cooldown_time cue audio) none (switch_times decisions))
switches_are_apart_example = switches_are_apart cue audio played

-- The calm effect is shown since the time 0.
abbrev calm_shown : Selector
calm_shown = record {
  current_effect = some 1;
  confirmed_state = some calm;
  pending_state = some calm;
  pending_since = some 0;
  last_switch = some 0;
}

loud_music_impact : All (Sees cue audio impact) ((12, loud_music) ∷ (14, loud_music) ∷ [])
unfolding light_belt.AdaptiveSelector.classify_music_state
loud_music_impact = (refl, (refl, tt))

steady_state_selects_example :
    (decisions : List SelectionDecision) × ((t : Selector) × (evaluate_all cue audio
          ((12, loud_music) ∷ (14, loud_music) ∷ [])
          calm_shown
        ≡ ok (decisions, t))
      × ((d : SelectionDecision) × ((u : Selector) × (evaluate cue audio 16 loud_music t
              ≡ ok (d, u))
            × (d.selected_effect ≡ effect_for_state cue impact)
            × (d.music_state ≡ impact))))
steady_state_selects_example =
    steady_state_selects cue audio impact 12 16 1 loud_music loud_music ((14, loud_music) ∷ [])
      calm_shown refl refl loud_music_impact loud_music_impact.0 (omega arith) refl refl
