-- ===== src/AdaptiveSelector.antt =====
-- light_engine/show/adaptive_selector.py: which effect an adaptive cue shows. The features of the music are
-- in thousandths and the times in ticks, so that comparisons are exact; of `energy_trend` only the
-- absolute value is read here. The choice of the speed is left out.
pub mod Confirming
pub mod Waiting
pub mod Spacing
pub mod Steady
mod Examples
use light_belt.Prelude.{
  ℕ, ◌+◌, Bool, true, false, Option, none, some, List, [], ◌∷◌, ◌&&◌, ◌||◌, not, ◌==◌, leb, ltb,
  if◌then◌else◌, Result, ok, err, assertion_error, ◌>>=◌,
}

pub data MusicState : Type 0 where
  silence calm flowing rhythmic energetic impact transition ambient : MusicState

abbrev pub state_number : MusicState → ℕ
state_number silence = 0
state_number calm = 1
state_number flowing = 2
state_number rhythmic = 3
state_number energetic = 4
state_number impact = 5
state_number transition = 6
state_number ambient = 7

abbrev pub state_eq : MusicState → MusicState → Bool
state_eq s t = state_number s == state_number t

-- MusicControlState
pub record Control : Type 0 where
  pub tempo_bpm : ℕ
  pub tempo_confidence : ℕ
  pub beat_strength : ℕ
  pub beat_regularity : ℕ
  pub energy : ℕ
  pub energy_trend_size : ℕ
  pub transient : ℕ
  pub bass_ambient : ℕ
  pub bass_pulse : ℕ
  pub spectral_motion : ℕ

-- AudioControlSpec
pub record Audio : Type 0 where
  pub tempo_off : Bool
  pub tempo_confidence_min : ℕ
  pub beat_regularity_min : ℕ
  pub state_confirmation : ℕ
  pub min_effect_hold : ℕ
  pub switch_cooldown : ℕ

-- The cue's effects, and the times of its transition, 0 where they are None.
pub record Cue : Type 0 where
  pub allowed : MusicState → Option ℕ
  pub fallback : ℕ
  pub transition_hold : ℕ
  pub transition_cooldown : ℕ

-- `_beat_ready`
abbrev pub beat_ready : Control → Audio → Bool
beat_ready c a =
    not a.tempo_off
    && ltb 0 c.tempo_bpm
    && leb a.tempo_confidence_min c.tempo_confidence
    && leb a.beat_regularity_min c.beat_regularity

unfoldable pub classify_music_state : Control → Audio → MusicState
classify_music_state c a =
    if leb c.energy 30 && leb c.transient 50
    then silence
    else (if leb 150 c.energy && (leb 650 c.bass_pulse || leb 850 c.transient)
        then impact
        else (if leb 720 c.energy && leb 350 c.spectral_motion
            then energetic
            else (if beat_ready c a && leb 350 c.beat_strength
                then rhythmic
                else (if leb 250 c.energy_trend_size || leb 500 c.spectral_motion
                    then transition
                    else (if leb 550 c.bass_ambient && ltb c.bass_pulse 350
                        then ambient
                        else (if leb 180 c.energy
                              || leb 180 c.spectral_motion
                              || leb 120 c.energy_trend_size
                            then flowing
                            else (if leb 40 c.energy then calm else silence)))))))

pub record Selector : Type 0 where
  pub current_effect : Option ℕ
  pub confirmed_state : Option MusicState
  pub pending_state : Option MusicState
  pub pending_since : Option ℕ
  pub last_switch : Option ℕ

-- `reset`, and the state that `__init__` makes
abbrev pub reset : Selector
reset = record {
  current_effect = none;
  confirmed_state = none;
  pending_state = none;
  pending_since = none;
  last_switch = none;
}

abbrev pub is_state : MusicState → Option MusicState → Bool
is_state m none = false
is_state m (some n) = state_eq m n

abbrev pub wait_for : ℕ → MusicState → Selector → Selector
wait_for now candidate s = record s { pending_state = some candidate; pending_since = some now }

-- `_confirm_state` once the candidate is pending: the state to show, whether the confirmation is awaited,
-- and the selector.
abbrev pub confirm_pending :
    ℕ → MusicState → MusicState → ℕ → Selector → Option ℕ → Result (MusicState × Bool × Selector)
confirm_pending now candidate confirmed wait s none = err assertion_error
confirm_pending now candidate confirmed wait s (some since) =
    if leb (since + wait) now
    then ok (candidate, false, record s { confirmed_state = some candidate })
    else ok (confirmed, true, s)

abbrev pub begin_pending : ℕ → MusicState → Selector → Selector
begin_pending now candidate s =
    if is_state candidate s.pending_state then s else wait_for now candidate s

abbrev pub confirm_from :
    ℕ → MusicState → ℕ → Selector → Option MusicState → Result (MusicState × Bool × Selector)
confirm_from now candidate wait s none =
    ok (candidate, false, record (wait_for now candidate s) { confirmed_state = some candidate })
confirm_from now candidate wait s (some confirmed) =
    if state_eq candidate confirmed
    then ok (confirmed, false, wait_for now candidate s)
    else confirm_pending now candidate confirmed wait (begin_pending now candidate s)
        (begin_pending now candidate s).pending_since

-- `_confirm_state`
unfoldable pub confirm_state : ℕ → MusicState → ℕ → Selector → Result (MusicState × Bool × Selector)
confirm_state now candidate wait s = confirm_from now candidate wait s s.confirmed_state

abbrev pub or_fallback : ℕ → Option ℕ → ℕ
or_fallback fallback none = fallback
or_fallback fallback (some effect) = effect

-- `_effect_for_state`
unfoldable pub effect_for_state : Cue → MusicState → ℕ
effect_for_state cue m = or_fallback cue.fallback (cue.allowed m)

-- `_hold_seconds`, `_cooldown_seconds`
abbrev pub hold_time : Cue → Audio → ℕ
hold_time cue a = if ltb 0 a.min_effect_hold then a.min_effect_hold else cue.transition_hold

abbrev pub cooldown_time : Cue → Audio → ℕ
cooldown_time cue a = if ltb 0 a.switch_cooldown then a.switch_cooldown else cue.transition_cooldown

-- `_gate_active`
abbrev pub gate_active : ℕ → Option ℕ → ℕ → Bool
gate_active now none time = false
gate_active now (some last) time = ltb 0 time && ltb now (last + time)

-- `reason_code`; `reason_of_sync` is the one that comes with the choice of the speed.
pub data Reason : Type 0 where
  reason_of_sync reason_state_unconfirmed reason_hold_active reason_cooldown_active : Reason

-- Without the sync mode, the tempo period, the speed and the copy of the features.
pub record SelectionDecision : Type 0 where
  pub show_time : ℕ
  pub music_state : MusicState
  pub selected_effect : ℕ
  pub previous_effect : Option ℕ
  pub hold_active : Bool
  pub cooldown_active : Bool
  pub confirmation_active : Bool
  pub reason : Reason

abbrev pub switch_to : ℕ → ℕ → Selector → Selector
switch_to now target s = record s { current_effect = some target; last_switch = some now }

-- The effect to show, the reason, and the selector, from the effect that is shown.
abbrev pub select : ℕ → ℕ → Bool → Bool → Bool → Selector → Option ℕ → ℕ × Reason × Selector
select now target unconfirmed hold cooldown s none =
    (target, reason_of_sync, switch_to now target s)
select now target unconfirmed hold cooldown s (some previous) =
    if unconfirmed
    then (previous, reason_state_unconfirmed, s)
    else (if target == previous
        then (previous, reason_of_sync, s)
        else (if hold
            then (previous, reason_hold_active, s)
            else (if cooldown
                then (previous, reason_cooldown_active, s)
                else (target, reason_of_sync, switch_to now target s))))

-- `evaluate` from the confirmed state on.
unfoldable pub decide :
    Cue → Audio → ℕ → MusicState × Bool × Selector → SelectionDecision × Selector
decide cue a now (m, unconfirmed, s) =
    let hold = gate_active now s.last_switch (hold_time cue a) in
    let cooldown = gate_active now s.last_switch (cooldown_time cue a) in
    let (selected, reason, t) =
      select now (effect_for_state cue m) unconfirmed hold cooldown s s.current_effect in
    (
      record {
        show_time = now;
        music_state = m;
        selected_effect = selected;
        previous_effect = s.current_effect;
        hold_active = hold;
        cooldown_active = cooldown;
        confirmation_active = unconfirmed;
        reason = reason;
      },
      t,
    )

-- `evaluate`
unfoldable pub evaluate :
    Cue → Audio → ℕ → Control → Selector → Result (SelectionDecision × Selector)
evaluate cue a now c s = do
  confirmed ← confirm_state now (classify_music_state c a) a.state_confirmation s
  ok (decide cue a now confirmed)

-- The calls of `evaluate` for a cue, one after the other.
unfoldable pub evaluate_all :
    Cue → Audio → List (ℕ × Control) → Selector → Result (List SelectionDecision × Selector)
evaluate_all cue a [] s = ok ([], s)
evaluate_all cue a ((now, c) ∷ rest) s = do
  first ← evaluate cue a now c s
  later ← evaluate_all cue a rest first.1
  ok (first.0 ∷ later.0, later.1)
