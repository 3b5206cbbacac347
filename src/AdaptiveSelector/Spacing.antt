-- ===== src/AdaptiveSelector/Spacing.antt =====
-- adaptive_selector.py: the selector always answers, and keeps its effects for the hold and cooldown times.
use light_belt.Prelude.{
  subst, ℕ, ◌+◌, ◌≤◌, ◌≡◌, refl, Bool, true, false, Option, none, some, List, [], ◌∷◌, ◌==◌,
  if◌then◌else◌, Bool-cases, ==_refl, inl, inr, ◌⊎◌, arith, Result, ok,
}
use light_belt.AdaptiveSelector.{
  Control, Audio, Cue, Selector, reset, classify_music_state, effect_for_state, hold_time,
  cooldown_time, gate_active, Reason, SelectionDecision, select, decide, evaluate, evaluate_all,
}
use light_belt.AdaptiveSelector.Confirming.{
  HasSince, HasEffect, WellFormed, confirm_state-Confirmed,
}

-- The time of a decision that changes the effect, the first one included.
abbrev is_shown : ℕ → Option ℕ → Bool
is_shown effect none = false
is_shown effect (some previous) = effect == previous

abbrev pub switch_times : List SelectionDecision → List ℕ
switch_times [] = []
switch_times (d ∷ ds) =
    if is_shown d.selected_effect d.previous_effect
    then switch_times ds
    else d.show_time ∷ switch_times ds

abbrev Since : ℕ → Option ℕ → ℕ → Type 0
Since gap none t = Unit {0}
Since gap (some last) t = 1 ≤ gap → last + gap ≤ t

-- The times are apart by the gap, if there is one, the first one from the last switch before.
abbrev pub Spaced : ℕ → Option ℕ → List ℕ → Type 0
Spaced gap last [] = Unit {0}
Spaced gap last (t ∷ ts) = Since gap last t × Spaced gap (some t) ts

gate_active-Since :
    (now : ℕ) (last : Option ℕ) (time : ℕ) → gate_active now last time ≡ false → Since time last now
gate_active-Since now none time h = tt
gate_active-Since now (some last) time h = λ some_time. ground (arith, h, some_time)

-- The next switch time is the last one where the effect is the one shown, and else now, after the gaps.
abbrev Switch : ℕ → ℕ → ℕ → Option ℕ → Bool → Option ℕ → Type 0
Switch now hold cooldown last shown next =
    ((shown ≡ true) × (next ≡ last))
    ⊎ ((shown ≡ false) × (next ≡ some now) × Since hold last now × Since cooldown last now)

after_switch :
    (gap now : ℕ) (last next : Option ℕ) (shown : Bool) (ts : List ℕ)
    → ((shown ≡ true) × (next ≡ last)) ⊎ ((shown ≡ false) × (next ≡ some now) × Since gap last now)
    → Spaced gap next ts
    → Spaced gap last (if shown then ts else now ∷ ts)
after_switch gap now last next shown ts (inl (p, q)) h =
    rw p (subst (λ (o : Option ℕ). Spaced gap o ts) q h)
after_switch gap now last next shown ts (inr (p, q, since)) h =
    rw p (since, subst (λ (o : Option ℕ). Spaced gap o ts) q h)

for_hold :
    (now hold cooldown : ℕ) (last next : Option ℕ) (shown : Bool)
    → Switch now hold cooldown last shown next
    → ((shown ≡ true) × (next ≡ last)) ⊎ ((shown ≡ false) × (next ≡ some now) × Since hold last now)
for_hold now hold cooldown last next shown (inl h) = inl h
for_hold now hold cooldown last next shown (inr h) = inr (h.0, h.1, h.2)

for_cooldown :
    (now hold cooldown : ℕ) (last next : Option ℕ) (shown : Bool)
    → Switch now hold cooldown last shown next
    → ((shown ≡ true) × (next ≡ last))
      ⊎ ((shown ≡ false) × (next ≡ some now) × Since cooldown last now)
for_cooldown now hold cooldown last next shown (inl h) = inl h
for_cooldown now hold cooldown last next shown (inr h) = inr (h.0, h.1, h.3)

-- A choice leaves the last switch, or it is a switch after both gates.
record Chosen (now hold cooldown : ℕ) (s : Selector) (before : Option ℕ) (r : ℕ × Reason × Selector)
    : Type 0 where
  pub switched : Switch now hold cooldown s.last_switch (is_shown r.0 before) r.2.last_switch
  pub since : HasSince r.2.confirmed_state r.2.pending_since
  pub effect : HasEffect r.2.current_effect r.2.last_switch

no_switch : (last : Option ℕ) (gap now : ℕ) → HasEffect none last → Since gap last now
no_switch none gap now h = tt
no_switch (some t) gap now h = absurd h

select-Chosen :
    (now target : ℕ) (unconfirmed : Bool) (hold cooldown : ℕ) (s : Selector) (before : Option ℕ)
    → s.current_effect ≡ before
    → HasEffect before s.last_switch
    → HasSince s.confirmed_state s.pending_since
    → Chosen now hold cooldown s before (
        select now target unconfirmed
          (gate_active now s.last_switch hold)
          (gate_active now s.last_switch cooldown)
          s
          before)
select-Chosen now target unconfirmed hold cooldown s none e h w = record {
  switched =
      inr (refl, refl, no_switch s.last_switch hold now h, no_switch s.last_switch cooldown now h);
  since = w;
  effect = tt;
}
select-Chosen now target true hold cooldown s (some previous) e h w = record {
  switched = inl (==_refl previous, refl);
  since = w;
  effect = rw e h;
}
select-Chosen now target false hold cooldown s (some previous) e h w =
    elim (Bool-cases (target == previous)) [
      | inl p ↦
          rw p (record { switched = inl (==_refl previous, refl); since = w; effect = rw e h })
      | inr p ↦ rw p (elim (Bool-cases (gate_active now s.last_switch hold)) [
        | inl q ↦
            rw q (record { switched = inl (==_refl previous, refl); since = w; effect = rw e h })
        | inr q ↦ rw q (elim (Bool-cases (gate_active now s.last_switch cooldown)) [
          | inl r ↦
              rw r (record { switched = inl (==_refl previous, refl); since = w; effect = rw e h })
          | inr r ↦ rw r (record {
            switched = inr (
              p,
              refl,
              gate_active-Since now s.last_switch hold q,
              gate_active-Since now s.last_switch cooldown r,
            );
            since = w;
            effect = tt;
          })
        ])
      ])
    ]

module _ (cue : Cue) (a : Audio) where
  -- What an evaluation leaves.
  record Evaluated (now : ℕ) (s : Selector) (r : Result (SelectionDecision × Selector))
      : Type 0 where
    pub value : SelectionDecision × Selector
    pub returns : r ≡ ok value
    pub time : value.0.show_time ≡ now
    pub well_formed : WellFormed value.1
    pub switched :
        Switch now
          (hold_time cue a)
          (cooldown_time cue a)
          s.last_switch
          (is_shown value.0.selected_effect value.0.previous_effect)
          value.1.last_switch

  evaluate-Evaluated :
      (now : ℕ) (c : Control) (s : Selector)
      → WellFormed s
      → Evaluated now s (evaluate cue a now c s)
  unfolding evaluate decide
  evaluate-Evaluated now c s w =
      let k = confirm_state-Confirmed now (classify_music_state c a) a.state_confirmation s w in
      let t : Selector = k.value.2 in
      let h =
        select-Chosen now (effect_for_state cue k.value.0) k.value.1 (hold_time cue a)
          (cooldown_time cue a) t t.current_effect refl (rw (k.effect, k.last) w.effect) k.since in
      record {
        value = decide cue a now k.value;
        returns = rw k.returns refl;
        time = refl;
        well_formed = record { since = h.since; effect = h.effect };
        switched =
            subst
              (λ (last : Option ℕ).
                Switch now (hold_time cue a) (cooldown_time cue a) last
                  (is_shown (decide cue a now k.value).0.selected_effect
                    (decide cue a now k.value).0.previous_effect)
                  (decide cue a now k.value).1.last_switch)
              k.last h.switched;
      }

  -- What the evaluations leave, one after the other.
  record AllEvaluated (s : Selector) (r : Result (List SelectionDecision × Selector)) : Type 0 where
    pub value : List SelectionDecision × Selector
    pub returns : r ≡ ok value
    pub held : Spaced (hold_time cue a) s.last_switch (switch_times value.0)
    pub cooled : Spaced (cooldown_time cue a) s.last_switch (switch_times value.0)

  evaluate_all-AllEvaluated :
      (calls : List (ℕ × Control)) (s : Selector)
      → WellFormed s
      → AllEvaluated s (evaluate_all cue a calls s)
  unfolding evaluate_all
  evaluate_all-AllEvaluated [] s w = record {
    value = ([], s);
    returns = refl;
    held = tt;
    cooled = tt;
  }
  evaluate_all-AllEvaluated ((now, c) ∷ calls) s w =
      let e = evaluate-Evaluated now c s w in
      let l = evaluate_all-AllEvaluated calls e.value.1 e.well_formed in
      record {
        value = (e.value.0 ∷ l.value.0, l.value.1);
        returns = rw (e.returns, l.returns) refl;
        held = rw e.time (
            after_switch (hold_time cue a) now s.last_switch e.value.1.last_switch
              (is_shown e.value.0.selected_effect e.value.0.previous_effect)
              (switch_times l.value.0)
              (for_hold now (hold_time cue a) (cooldown_time cue a) s.last_switch
                e.value.1.last_switch (is_shown e.value.0.selected_effect e.value.0.previous_effect)
                e.switched)
              l.held);
        cooled = rw e.time (
            after_switch (cooldown_time cue a) now s.last_switch e.value.1.last_switch
              (is_shown e.value.0.selected_effect e.value.0.previous_effect)
              (switch_times l.value.0)
              (for_cooldown now (hold_time cue a) (cooldown_time cue a) s.last_switch
                e.value.1.last_switch (is_shown e.value.0.selected_effect e.value.0.previous_effect)
                e.switched)
              l.cooled);
      }

  -- From a reset on, whatever features come at whatever times, every call answers, with no assertion
  -- raised; and of two times at which the effect is changed, one after the other, the second is later than the first
  -- by the hold time and by the cooldown time of the cue, if it has them.
  pub switches_are_apart :
      (calls : List (ℕ × Control))
      → (decisions : List SelectionDecision) × ((s : Selector) × (evaluate_all cue a calls reset
            ≡ ok (decisions, s))
          × Spaced (hold_time cue a) none (switch_times decisions)
          × Spaced (cooldown_time cue a) none (switch_times decisions))
  switches_are_apart calls =
      let e = evaluate_all-AllEvaluated calls reset (record { since = tt; effect = tt }) in
      (e.value.0, (e.value.1, e.returns, e.held, e.cooled))
