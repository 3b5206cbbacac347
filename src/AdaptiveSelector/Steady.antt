-- ===== src/AdaptiveSelector/Steady.antt =====
-- adaptive_selector.py: music that stays in one state gets the effect of that state.
use light_belt.Prelude.{
  subst, ℕ, ◌+◌, ◌≤◌, ◌≡◌, ◌∙◌, sym, ap, refl, Bool, true, false, Option, none, some, List, [], ◌∷◌,
  ◌==◌, ==→eq, ==_refl, if◌then◌else◌, Bool-cases, inl, inr, ◌⊎◌, arith, All, Result, ok,
}
use light_belt.AdaptiveSelector.{
  MusicState, is_state, Control, Audio, Cue, Selector, classify_music_state, effect_for_state,
  hold_time, cooldown_time, gate_active, Reason, reason_of_sync, reason_hold_active,
  reason_cooldown_active, SelectionDecision, select, switch_to, decide, evaluate, evaluate_all,
}
use light_belt.AdaptiveSelector.Waiting.{Awaits, confirm_state-Awaited, confirm_state-late}

module _ (cue : Cue) (a : Audio) (m : MusicState) where
  -- The effect of the state is shown, or another one is and nothing was switched.
  abbrev ShownOr : Option ℕ → Selector → Type 0
  ShownOr last s =
      (s.current_effect ≡ some (effect_for_state cue m))
      ⊎ (((e : ℕ) × (s.current_effect ≡ some e)) × (s.last_switch ≡ last))

  ShownOr-some :
      (last : Option ℕ) (s : Selector) → ShownOr last s → (e : ℕ) × (s.current_effect ≡ some e)
  ShownOr-some last s (inl h) = (effect_for_state cue m, h)
  ShownOr-some last s (inr h) = h.0

  select-ShownOr :
      (now : ℕ) (unconfirmed hold cooldown : Bool) (n : MusicState) (last : Option ℕ) (s : Selector)
      (previous : ℕ)
      → (unconfirmed ≡ true) ⊎ (n ≡ m)
      → ShownOr last s
      → ShownOr last
          (select now (effect_for_state cue n) unconfirmed hold cooldown s (some previous)).2
  select-ShownOr now true hold cooldown n last s previous f h = h
  select-ShownOr now false hold cooldown n last s previous (inl f) h = ground (arith, f)
  select-ShownOr now false hold cooldown n last s previous (inr f) h =
      elim (Bool-cases (effect_for_state cue n == previous)) [
        | inl p ↦ rw p h
        | inr p ↦ rw p (gates hold cooldown)
      ]
    where
      gates :
          (hold cooldown : Bool)
          → ShownOr last
              (let r : ℕ × Reason × Selector =
                  if hold
                  then (previous, reason_hold_active, s)
                  else (if cooldown then (previous, reason_cooldown_active, s) else (
                    effect_for_state cue n,
                    reason_of_sync,
                    switch_to now (effect_for_state cue n) s,
                  )) in
                r).2
      gates true cooldown = h
      gates false true = h
      gates false false = inl (ap (λ (k : MusicState). some (effect_for_state cue k)) f)

  select-Awaits :
      (start now target : ℕ) (unconfirmed hold cooldown : Bool) (s : Selector) (o : Option ℕ)
      → Awaits start m s
      → Awaits start m (select now target unconfirmed hold cooldown s o).2
  select-Awaits start now target unconfirmed hold cooldown s none h = h
  select-Awaits start now target true hold cooldown s (some previous) h = h
  select-Awaits start now target false hold cooldown s (some previous) h =
      elim (Bool-cases (target == previous)) [
        | inl p ↦ rw p h
        | inr p ↦ rw p (elim (Bool-cases hold) [
          | inl q ↦ rw q h
          | inr q ↦ rw q (elim (Bool-cases cooldown) [ inl r ↦ rw r h | inr r ↦ rw r h ])
        ])
      ]

  -- What an evaluation in this state leaves.
  record Kept (start : ℕ) (last : Option ℕ) (r : Result (SelectionDecision × Selector))
      : Type 0 where
    pub value : SelectionDecision × Selector
    pub returns : r ≡ ok value
    pub awaits : Awaits start m value.1
    pub shown : ShownOr last value.1

  evaluate-Kept :
      (start now : ℕ) (c : Control) (last : Option ℕ) (s : Selector)
      → classify_music_state c a ≡ m
      → (Awaits start m s) ⊎ ((now ≡ start) × (is_state m s.pending_state ≡ false))
      → ShownOr last s
      → Kept start last (evaluate cue a now c s)
  unfolding evaluate decide
  evaluate-Kept start now c last s same awaits shown =
      let k = confirm_state-Awaited start now a.state_confirmation m s awaits in
      let t : Selector = k.value.2 in
      let shown_t : ShownOr last t = rw (k.effect, k.last) shown in
      let (previous, e) = ShownOr-some last t shown_t in
      record {
        value = decide cue a now k.value;
        returns = rw (same, k.returns) refl;
        awaits =
            select-Awaits start now (effect_for_state cue k.value.0) k.value.1
              (gate_active now t.last_switch (hold_time cue a))
              (gate_active now t.last_switch (cooldown_time cue a)) t t.current_effect k.awaits;
        shown =
            subst
              (λ (o : Option ℕ).
                ShownOr last
                  (select now (effect_for_state cue k.value.0) k.value.1
                    (gate_active now t.last_switch (hold_time cue a))
                    (gate_active now t.last_switch (cooldown_time cue a)) t o).2)
              (sym e)
              (select-ShownOr now k.value.1 (gate_active now t.last_switch (hold_time cue a))
                (gate_active now t.last_switch (cooldown_time cue a)) k.value.0 last t previous
                k.state shown_t);
      }

  -- Each call sees the state.
  abbrev pub Sees : ℕ × Control → Type 0
  Sees call = classify_music_state call.1 a ≡ m

  record AllKept (start : ℕ) (last : Option ℕ) (r : Result (List SelectionDecision × Selector))
      : Type 0 where
    pub value : List SelectionDecision × Selector
    pub returns : r ≡ ok value
    pub awaits : Awaits start m value.1
    pub shown : ShownOr last value.1

  evaluate_all-AllKept :
      (start : ℕ) (calls : List (ℕ × Control)) (last : Option ℕ) (s : Selector)
      → All Sees calls
      → Awaits start m s
      → ShownOr last s
      → AllKept start last (evaluate_all cue a calls s)
  unfolding evaluate_all
  evaluate_all-AllKept start [] last s sees awaits shown = record {
    value = ([], s);
    returns = refl;
    awaits = awaits;
    shown = shown;
  }
  evaluate_all-AllKept start ((now, c) ∷ calls) last s sees awaits shown =
      let e = evaluate-Kept start now c last s sees.0 (inl awaits) shown in
      let l = evaluate_all-AllKept start calls last e.value.1 sees.1 e.awaits e.shown in
      record {
        value = (e.value.0 ∷ l.value.0, l.value.1);
        returns = rw (e.returns, l.returns) refl;
        awaits = l.awaits;
        shown = l.shown;
      }

  select_target :
      (now target : ℕ) (hold cooldown : Bool) (s : Selector) (o : Option ℕ)
      → (o ≡ some target) ⊎ ((hold ≡ false) × (cooldown ≡ false))
      → (select now target false hold cooldown s o).0 ≡ target
  select_target now target hold cooldown s none h = refl
  select_target now target hold cooldown s (some previous) (inl e) =
      rw (let k : target ≡ previous = ground (arith, e) in k, ==_refl previous) refl
  select_target now target hold cooldown s (some previous) (inr (p, q)) =
      elim (Bool-cases (target == previous)) [
        | inl r ↦ rw r (sym (==→eq target previous r))
        | inr r ↦ rw (r, p, q) refl
      ]

  -- An output that shows an effect sees music of a state that it was not waiting for. The calls
  -- after that all see this state. Then a call that is later than the first one by the confirmation time, and
  -- for which the hold and the cooldown since the last switch before are over, selects
  -- the effect of the state; none of the calls raises.
  pub steady_state_selects :
      (start now effect : ℕ) (first last : Control) (between : List (ℕ × Control)) (s : Selector)
      → s.current_effect ≡ some effect
      → is_state m s.pending_state ≡ false
      → All Sees ((start, first) ∷ between)
      → classify_music_state last a ≡ m
      → start + a.state_confirmation ≤ now
      → gate_active now s.last_switch (hold_time cue a) ≡ false
      → gate_active now s.last_switch (cooldown_time cue a) ≡ false
      → (decisions : List SelectionDecision) × ((t : Selector) × (evaluate_all cue a
              ((start, first) ∷ between)
              s
            ≡ ok (decisions, t))
          × ((d : SelectionDecision) × ((u : Selector) × (evaluate cue a now last t ≡ ok (d, u))
                × (d.selected_effect ≡ effect_for_state cue m)
                × (d.music_state ≡ m))))
  unfolding evaluate_all evaluate decide
  steady_state_selects start now effect first last between s shown other sees sees_last late hold
        cooldown =
      let e =
        evaluate-Kept start start first s.last_switch s sees.0 (inr (refl, other))
          (inr ((effect, shown), refl)) in
      let l = evaluate_all-AllKept start between s.last_switch e.value.1 sees.1 e.awaits e.shown in
      let t = l.value.1 in
      let (u, returns, same_effect, same_last) =
        confirm_state-late start now a.state_confirmation m t l.awaits late in
      let open_gates : (u.current_effect ≡ some (effect_for_state cue m))
          ⊎ ((gate_active now u.last_switch (hold_time cue a) ≡ false)
              × (gate_active now u.last_switch (cooldown_time cue a) ≡ false)) =
        elim l.shown [
          | inl x ↦ inl (same_effect ∙ x)
          | inr (_, y) ↦ inr (
            ap (λ (o : Option ℕ). gate_active now o (hold_time cue a)) (same_last ∙ y) ∙ hold,
            ap (λ (o : Option ℕ). gate_active now o (cooldown_time cue a)) (same_last ∙ y)
                ∙ cooldown,
          )
        ] in
      (
        e.value.0 ∷ l.value.0,
        (
          t,
          rw (e.returns, l.returns) refl,
          (
            (decide cue a now (m, false, u)).0,
            (
              (decide cue a now (m, false, u)).1,
              rw (sees_last, returns) refl,
              select_target now (effect_for_state cue m)
                  (gate_active now u.last_switch (hold_time cue a))
                  (gate_active now u.last_switch (cooldown_time cue a)) u u.current_effect
                  open_gates,
              refl,
            ),
          ),
        ),
      )
