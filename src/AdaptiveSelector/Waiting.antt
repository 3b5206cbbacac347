-- ===== src/AdaptiveSelector/Waiting.antt =====
-- adaptive_selector.py: how `_confirm_state` waits for a state that the music stays in.
use light_belt.Prelude.{
  subst, ℕ, ◌+◌, ◌≤◌, ◌≡◌, ◌∙◌, sym, ap, refl, Bool, true, false, Option, none, some, ◌==◌, ==→eq,
  ==_refl, leb, le→leb, if◌then◌else◌, Bool-cases, inl, inr, ◌⊎◌, arith, Result, ok,
}
use light_belt.AdaptiveSelector.{
  MusicState, silence, calm, flowing, rhythmic, energetic, impact, transition, ambient,
  state_number, state_eq, is_state, Selector, wait_for, begin_pending, confirm_pending,
  confirm_from, confirm_state,
}

number_state : ℕ → MusicState
number_state n =
    if n == 0
    then silence
    else (if n == 1
        then calm
        else (if n == 2
            then flowing
            else (if n == 3
                then rhythmic
                else (if n == 4
                    then energetic
                    else (if n == 5 then impact else (if n == 6 then transition else ambient))))))

number_state-state_number : (m : MusicState) → number_state (state_number m) ≡ m
unfolding number_state
number_state-state_number silence = refl
number_state-state_number calm = refl
number_state-state_number flowing = refl
number_state-state_number rhythmic = refl
number_state-state_number energetic = refl
number_state-state_number impact = refl
number_state-state_number transition = refl
number_state-state_number ambient = refl

state_eq→eq : (m n : MusicState) → state_eq m n ≡ true → m ≡ n
state_eq→eq m n h =
    sym (number_state-state_number m) ∙ ap number_state (==→eq _ _ h) ∙ number_state-state_number n

-- The state is confirmed, or it is pending since a time that is not after `start`.
abbrev pub Awaits : ℕ → MusicState → Selector → Type 0
Awaits start m s =
    (s.confirmed_state ≡ some m)
    ⊎ ((s.pending_state ≡ some m) × ((u : ℕ) × (s.pending_since ≡ some u) × (u ≤ start)))

-- A confirmation for `m` answers, and shows `m` or still waits.
pub record Awaited (start : ℕ) (m : MusicState) (s : Selector)
    (r : Result (MusicState × Bool × Selector)) : Type 0 where
  pub value : MusicState × Bool × Selector
  pub returns : r ≡ ok value
  pub state : (value.1 ≡ true) ⊎ (value.0 ≡ m)
  pub awaits : Awaits start m value.2
  pub effect : value.2.current_effect ≡ s.current_effect
  pub last : value.2.last_switch ≡ s.last_switch

pending_Awaited :
    (start now wait : ℕ) (m confirmed : MusicState) (s : Selector) (u : ℕ)
    → s.pending_state ≡ some m
    → s.pending_since ≡ some u
    → u ≤ start
    → Awaited start m s (confirm_pending now m confirmed wait s (some u))
pending_Awaited start now wait m confirmed s u p e k = elim (Bool-cases (leb (u + wait) now)) [
  | inl h ↦ rw h (record {
    value = (m, false, record s { confirmed_state = some m });
    returns = refl;
    state = inr refl;
    awaits = inl refl;
    effect = refl;
    last = refl;
  })
  | inr h ↦ rw h (record {
    value = (confirmed, true, s);
    returns = refl;
    state = inl refl;
    awaits = inr (p, (u, e, k));
    effect = refl;
    last = refl;
  })
]

-- A state that is not the confirmed one, when it is seen.
waiting_Awaited :
    (start now wait : ℕ) (m confirmed : MusicState) (s : Selector)
    → s.confirmed_state ≡ some confirmed
    → state_eq m confirmed ≡ false
    → (Awaits start m s) ⊎ ((now ≡ start) × (is_state m s.pending_state ≡ false))
    → Awaited start m s (
        confirm_pending now m confirmed wait
          (begin_pending now m s)
          (begin_pending now m s).pending_since)
waiting_Awaited start now wait m confirmed s e p (inl (inl c)) =
    let same : some m ≡ some confirmed = sym c ∙ e in
    ground (
      arith,
      p,
      (let k : state_eq m m ≡ state_eq m confirmed = ap (is_state m) same in k),
      ==_refl (state_number m),
    )
waiting_Awaited start now wait m confirmed s e p (inl (inr (pending, (u, since, k)))) =
    let is_pending : is_state m s.pending_state ≡ true =
      ap (is_state m) pending ∙ ==_refl (state_number m) in
    rw is_pending (
      subst (λ (o : Option ℕ). Awaited start m s (confirm_pending now m confirmed wait s o))
        (sym since) (pending_Awaited start now wait m confirmed s u pending since k))
waiting_Awaited start now wait m confirmed s e p (inr (first, other)) =
    let a =
      pending_Awaited start now wait m confirmed (wait_for now m s) now refl refl
        (omega (arith, first)) in
    rw other (record {
      value = a.value;
      returns = a.returns;
      state = a.state;
      awaits = a.awaits;
      effect = a.effect;
      last = a.last;
    })

-- Of the first confirmation, and of each later one.
pub confirm_state-Awaited :
    (start now wait : ℕ) (m : MusicState) (s : Selector)
    → (Awaits start m s) ⊎ ((now ≡ start) × (is_state m s.pending_state ≡ false))
    → Awaited start m s (confirm_state now m wait s)
unfolding confirm_state
confirm_state-Awaited start now wait m s h = from s.confirmed_state refl
  where
    shown :
        {o : Option MusicState}
        → s.confirmed_state ≡ o
        → Awaited start m s (ok (m, false, record (wait_for now m s) { confirmed_state = some m }))
    shown e = record {
      value = (m, false, record (wait_for now m s) { confirmed_state = some m });
      returns = refl;
      state = inr refl;
      awaits = inl refl;
      effect = refl;
      last = refl;
    }

    from :
        (o : Option MusicState)
        → s.confirmed_state ≡ o
        → Awaited start m s (confirm_from now m wait s o)
    from none e = shown e
    from (some confirmed) e = elim (Bool-cases (state_eq m confirmed)) [
      | inl p ↦ rw p (record {
        value = (confirmed, false, wait_for now m s);
        returns = refl;
        state = inr (sym (state_eq→eq m confirmed p));
        awaits = inl (e ∙ ap some (sym (state_eq→eq m confirmed p)));
        effect = refl;
        last = refl;
      })
      | inr p ↦ rw p (waiting_Awaited start now wait m confirmed s e p h)
    ]

-- Late enough, the state is confirmed.
pub confirm_state-late :
    (start now wait : ℕ) (m : MusicState) (s : Selector)
    → Awaits start m s
    → start + wait ≤ now
    → (t : Selector) × (confirm_state now m wait s ≡ ok (m, false, t))
      × (t.current_effect ≡ s.current_effect)
      × (t.last_switch ≡ s.last_switch)
unfolding confirm_state
confirm_state-late start now wait m s (inl c) late =
    (wait_for now m s, rw (c, ==_refl (state_number m)) refl, refl, refl)
confirm_state-late start now wait m s (inr (pending, (u, since, k))) late =
    from s.confirmed_state refl
  where
    is_pending : is_state m s.pending_state ≡ true
    is_pending = ap (is_state m) pending ∙ ==_refl (state_number m)

    from :
        (o : Option MusicState)
        → s.confirmed_state ≡ o
        → (t : Selector) × (confirm_from now m wait s o ≡ ok (m, false, t))
          × (t.current_effect ≡ s.current_effect)
          × (t.last_switch ≡ s.last_switch)
    from none e = (record (wait_for now m s) { confirmed_state = some m }, refl, refl, refl)
    from (some confirmed) e = elim (Bool-cases (state_eq m confirmed)) [
      | inl p ↦ (wait_for now m s, rw (p, state_eq→eq m confirmed p) refl, refl, refl)
      | inr p ↦ (
        record s { confirmed_state = some m },
        rw (p, is_pending, since, le→leb (u + wait) now (omega (arith, k, late))) refl,
        refl,
        refl,
      )
    ]
