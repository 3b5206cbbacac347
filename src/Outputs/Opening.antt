-- ===== src/Outputs/Opening.antt =====
-- outputs/__init__.py: what `open_all` leaves open when it raises, and when it does not.
use light_belt.Prelude.{
  ◌≡◌, refl, subst, sym, ap, ◌∙◌, Bool, true, false, Option, none, some, List, [], ◌∷◌, ◌++◌, map,
  append_assoc, append-nil, inl, inr, Bool-cases, if◌then◌else◌,
}
use light_belt.Outputs.{
  Output, Driver, failed, settled, roll_back, unflagged, after_open, open_from, open_all,
}

module _ {Device Failure Frame : Type 0} (d : Driver Device Failure Frame) where
  -- An output after the attempt to open it, and whether it is open.
  abbrev flagged : Output Device Failure × Option Failure → Output Device Failure × Bool
  flagged (p, none) = (p, true)
  flagged (p, some e) = (failed p e, false)

  abbrev pub tried : Output Device Failure → Output Device Failure × Bool
  tried o = flagged (d.open_output o)

  -- An output before the one that made `open_all` raise: closed again if it was opened.
  abbrev pub undone : Output Device Failure → Output Device Failure
  undone o = let (p, opened) = tried o in if opened then (d.close_output p).0 else p

  -- The call has already got past `done`, and raises at an output in production: those that were
  -- opened are closed, and those after it are as they were.
  pub record RolledBack (done : List (Output Device Failure × Bool))
      (os after : List (Output Device Failure)) (e : Failure) : Type 0 where
    pub before : List (Output Device Failure)
    pub at_fault : Output Device Failure
    pub rest : List (Output Device Failure)
    pub half_open : Output Device Failure
    pub split : os ≡ before ++ at_fault ∷ rest
    pub raised : d.open_output at_fault ≡ (half_open, some e)
    pub production : half_open.production ≡ true
    pub left : after ≡ roll_back d done ++ (map undone before ++ failed half_open e ∷ rest)

  abbrev pub Opens :
      List (Output Device Failure × Bool)
      → List (Output Device Failure)
      → List (Output Device Failure) × Option Failure
      → Type 0
  Opens done os (after, none) = after ≡ unflagged d done ++ map (λ o. settled (d.open_output o)) os
  Opens done os (after, some e) = RolledBack done os after e

  unflagged-append :
      (xs ys : List (Output Device Failure × Bool))
      → unflagged d (xs ++ ys) ≡ unflagged d xs ++ unflagged d ys
  unflagged-append [] ys = refl
  unflagged-append ((o, b) ∷ xs) ys = ap (◌∷◌ o) (unflagged-append xs ys)

  roll_back-append :
      (xs ys : List (Output Device Failure × Bool))
      → roll_back d (xs ++ ys) ≡ roll_back d xs ++ roll_back d ys
  unfolding roll_back
  roll_back-append [] ys = refl
  roll_back-append ((o, b) ∷ xs) ys =
      ap (◌∷◌ (if b then (d.close_output o).0 else o)) (roll_back-append xs ys)

  flagged-settled : (r : Output Device Failure × Option Failure) → (flagged r).0 ≡ settled r
  flagged-settled (p, none) = refl
  flagged-settled (p, some e) = refl

  module _ (done : List (Output Device Failure × Bool)) (o : Output Device Failure)
      (os : List (Output Device Failure)) where
    -- An output that was tried moves from what is left to what is done.
    shift :
        (r : List (Output Device Failure) × Option Failure)
        → Opens (done ++ tried o ∷ []) os r
        → Opens done (o ∷ os) r
    unfolding roll_back
    shift (after, none) h =
        h
        ∙ ap (λ (x : List (Output Device Failure)). x ++ map (λ o. settled (d.open_output o)) os)
            (unflagged-append done (tried o ∷ []))
        ∙ append_assoc (unflagged d done) (unflagged d (tried o ∷ [])) _
        ∙ ap
            (λ (p : Output Device Failure).
              unflagged d done ++ p ∷ map (λ o. settled (d.open_output o)) os)
            (flagged-settled (d.open_output o))
    shift (after, some e) s = record {
      before = o ∷ s.before;
      at_fault = s.at_fault;
      rest = s.rest;
      half_open = s.half_open;
      split = ap (◌∷◌ o) s.split;
      raised = s.raised;
      production = s.production;
      left =
          s.left
          ∙ ap
              (λ (x : List (Output Device Failure)).
                x ++ (map undone s.before ++ failed s.half_open e ∷ s.rest))
              (roll_back-append done (tried o ∷ []))
          ∙ append_assoc (roll_back d done) (roll_back d (tried o ∷ [])) _;
    }

    abbrev Later : Type 0
    Later = (done : List (Output Device Failure × Bool)) → Opens done os (open_from d done os)

    -- The same for a run whose first round is known.
    moved :
        (q : Output Device Failure × Bool)
        → tried o ≡ q
        → Later
        → open_from d done (o ∷ os) ≡ open_from d (done ++ q ∷ []) os
        → Opens done (o ∷ os) (open_from d done (o ∷ os))
    moved q e later round = rw round (
        shift (open_from d (done ++ q ∷ []) os) (
          subst (λ x. Opens (done ++ x ∷ []) os (open_from d (done ++ q ∷ []) os)) (sym e)
            (later (done ++ q ∷ []))))

    next :
        Later
        → (r : Output Device Failure × Option Failure) → d.open_output o ≡ r
        → Opens done (o ∷ os) (open_from d done (o ∷ os))
    next later (p, none) made =
        moved (p, true) (ap flagged made) later (unfold open_from after_open in rw made)
    next later (p, some x) made = elim (Bool-cases p.production) [
      | inr go ↦
          moved (failed p x, false) (ap flagged made) later
            (unfold open_from after_open in rw (made, go))
      | inl stop ↦
          let round : open_from d done (o ∷ os) ≡ (roll_back d done ++ failed p x ∷ os, some x) =
            unfold open_from after_open in rw (made, stop) in
          rw round (record {
            before = [];
            at_fault = o;
            rest = os;
            half_open = p;
            split = refl;
            raised = made;
            production = stop;
            left = refl;
          })
    ]

  open_from_outcome :
      (done : List (Output Device Failure × Bool)) (os : List (Output Device Failure))
      → Opens done os (open_from d done os)
  unfolding open_from
  open_from_outcome done [] = sym (append-nil (unflagged d done))
  open_from_outcome done (o ∷ os) =
      next done o os (λ further. open_from_outcome further os) (d.open_output o) refl

  -- `open_all` without an exception has tried every output, and marked those that did not open.
  -- An exception is that of an output in production that did not open; the outputs before it that
  -- were opened are closed again, and those after it are as they were.
  pub open_all_outcome : (os : List (Output Device Failure)) → Opens [] os (open_all d os)
  unfolding open_all
  open_all_outcome os = open_from_outcome [] os
