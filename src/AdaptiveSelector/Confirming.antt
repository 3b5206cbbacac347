-- ===== src/AdaptiveSelector/Confirming.antt =====
-- adaptive_selector.py: `_confirm_state` always answers, and leaves the shown effect alone.
use light_belt.Prelude.{
  ℕ, ◌+◌, ◌≡◌, refl, Bool, true, false, Option, none, some, leb, Bool-cases, inl, inr, ◌∙◌, Result,
  ok,
}
use light_belt.AdaptiveSelector.{
  MusicState, state_eq, is_state, Selector, wait_for, confirm_pending, confirm_from, confirm_state,
}

-- A confirmed state comes with the time since which a state is pending.
abbrev pub HasSince : Option MusicState → Option ℕ → Type 0
HasSince none since = Unit {0}
HasSince (some m) none = ⊥
HasSince (some m) (some t) = Unit {0}

-- There is a time of the last switch where there is an effect, and only there.
abbrev pub HasEffect : Option ℕ → Option ℕ → Type 0
HasEffect none none = Unit {0}
HasEffect none (some t) = ⊥
HasEffect (some effect) none = ⊥
HasEffect (some effect) (some t) = Unit {0}

-- The states that the selector reaches.
pub record WellFormed (s : Selector) : Type 0 where
  pub since : HasSince s.confirmed_state s.pending_since
  pub effect : HasEffect s.current_effect s.last_switch

-- What a confirmation leaves alone.
pub record Confirmed (s : Selector) (r : Result (MusicState × Bool × Selector)) : Type 0 where
  pub value : MusicState × Bool × Selector
  pub returns : r ≡ ok value
  pub since : HasSince value.2.confirmed_state value.2.pending_since
  pub effect : value.2.current_effect ≡ s.current_effect
  pub last : value.2.last_switch ≡ s.last_switch

confirm_pending-Confirmed :
    (now : ℕ) (candidate confirmed : MusicState) (wait : ℕ) (s : Selector) (since : Option ℕ)
    → HasSince (some confirmed) since
    → s.pending_since ≡ since
    → HasSince s.confirmed_state s.pending_since
    → Confirmed s (confirm_pending now candidate confirmed wait s since)
confirm_pending-Confirmed now candidate confirmed wait s none h e w = absurd h
confirm_pending-Confirmed now candidate confirmed wait s (some since) h e w =
    elim (Bool-cases (leb (since + wait) now)) [
      | inl p ↦ rw p (record {
        value = (candidate, false, record s { confirmed_state = some candidate });
        returns = refl;
        since = rw e tt;
        effect = refl;
        last = refl;
      })
      | inr p ↦ rw p (record {
        value = (confirmed, true, s);
        returns = refl;
        since = w;
        effect = refl;
        last = refl;
      })
    ]

-- What follows a change of the pending state only.
from_waiting :
    (s t : Selector) (r : Result (MusicState × Bool × Selector))
    → t.current_effect ≡ s.current_effect
    → t.last_switch ≡ s.last_switch
    → Confirmed t r
    → Confirmed s r
from_waiting s t r effect last c = record {
  value = c.value;
  returns = c.returns;
  since = c.since;
  effect = c.effect ∙ effect;
  last = c.last ∙ last;
}

confirm_from-Confirmed :
    (now : ℕ) (candidate : MusicState) (wait : ℕ) (s : Selector) (o : Option MusicState)
    → s.confirmed_state ≡ o
    → HasSince o s.pending_since
    → Confirmed s (confirm_from now candidate wait s o)
confirm_from-Confirmed now candidate wait s none e w = record {
  value =
      (candidate, false, record (wait_for now candidate s) { confirmed_state = some candidate });
  returns = refl;
  since = tt;
  effect = refl;
  last = refl;
}
confirm_from-Confirmed now candidate wait s (some m) e w =
    elim (Bool-cases (state_eq candidate m)) [
      | inl p ↦ rw p (record {
        value = (m, false, wait_for now candidate s);
        returns = refl;
        since = rw e tt;
        effect = refl;
        last = refl;
      })
      | inr p ↦ rw p (elim (Bool-cases (is_state candidate s.pending_state)) [
        | inl q ↦
            rw q (confirm_pending-Confirmed now candidate m wait s s.pending_since w refl (rw e w))
        | inr q ↦ rw q (
            from_waiting s (wait_for now candidate s)
              (confirm_pending now candidate m wait (wait_for now candidate s) (some now)) refl refl
              (confirm_pending-Confirmed now candidate m wait (wait_for now candidate s) (some now)
                tt refl (rw e tt)))
      ])
    ]

pub confirm_state-Confirmed :
    (now : ℕ) (candidate : MusicState) (wait : ℕ) (s : Selector)
    → WellFormed s
    → Confirmed s (confirm_state now candidate wait s)
unfolding confirm_state
confirm_state-Confirmed now candidate wait s w =
    confirm_from-Confirmed now candidate wait s s.confirmed_state refl w.since
