-- ===== src/Prelude/Actions.antt =====
-- Methods that change an object and may raise. What was written before an exception stays written.
use mathlib.Core.Bool.{Bool}
use light_belt.Prelude.Results.{Error, Result, ok, err}
use light_belt.Prelude.Tests.{if◌then◌else◌}

abbrev pub Action : Type 0 → Type 0 → Type 0
Action S A = S → Result A × S

module _ {S : Type 0} where
  abbrev pub pure : {A : Type 0} → A → Action S A
  pure a s = (ok a, s)

  abbrev pub raise : {A : Type 0} → Error → Action S A
  raise e s = (err e, s)

  abbrev pub gets : {A : Type 0} → (S → A) → Action S A
  gets f s = (ok (f s), s)

  abbrev pub modify : (S → S) → Action S (Unit {0})
  modify f s = (ok tt, f s)

  -- A call of a pure function that may raise.
  abbrev pub of_result : {A : Type 0} → Result A → Action S A
  of_result r s = (r, s)

  infixl 5 ◌>>=◌ ◌>>◌
  -- The continuation of a call that has come back.
  abbrev pub resume : {A B : Type 0} → (A → Action S B) → Result A × S → Result B × S
  resume k (err e, s) = (err e, s)
  resume k (ok a, s) = k a s

  abbrev pub ◌>>=◌ : {A B : Type 0} → Action S A → (A → Action S B) → Action S B
  ◌>>=◌ m k s = resume k (m s)

  abbrev pub ◌>>◌ : {B : Type 0} → Action S (Unit {0}) → Action S B → Action S B
  m >> k = m >>= (λ done. k)

  -- The handler of a call that has come back.
  abbrev pub handle : {A : Type 0} → (Error → Action S A) → Result A × S → Result A × S
  handle h (ok a, s) = (ok a, s)
  handle h (err e, s) = h e s

  -- `try: m except Exception as e: h`
  abbrev pub attempt : {A : Type 0} → Action S A → (Error → Action S A) → Action S A
  attempt m h s = handle h (m s)

  abbrev pub when : Bool → Action S (Unit {0}) → Action S (Unit {0})
  when b m = if b then m else pure tt

-- A method of a part of the object.
module _ {S P A : Type 0} where
  abbrev pub returned : (P → S) → Result A × P → Result A × S
  returned put (r, p) = (r, put p)

  abbrev pub on_part : (S → P) → (P → S → S) → Action P A → Action S A
  on_part get put m s = returned (λ p. put p s) (m (get s))

-- What holds after a call: of its result and the object where it returns, of the exception and the
-- object where it raises.
unfoldable pub Ensures :
    {S A : Type 0} → (A → S → Type 0) → (Error → S → Type 0) → Result A × S → Type 0
Ensures P Q (ok a, s) = P a s
Ensures P Q (err e, s) = Q e s

module _ {S A : Type 0} (P : A → S → Type 0) (Q : Error → S → Type 0) where
  pub Ensures-bind :
      {B : Type 0} (R : B → S → Type 0) (k : A → Action S B) (r : Result A × S)
      → Ensures P Q r
      → ((a : A) (s : S) → P a s → Ensures R Q (k a s))
      → Ensures R Q (resume k r)
  unfolding Ensures
  Ensures-bind R k (ok a, s) h later = later a s h
  Ensures-bind R k (err e, s) h later = h

  pub Ensures-attempt :
      (R : Error → S → Type 0) (h : Error → Action S A) (r : Result A × S)
      → Ensures P Q r
      → ((e : Error) (s : S) → Q e s → Ensures P R (h e s))
      → Ensures P R (handle h r)
  unfolding Ensures
  Ensures-attempt R h (ok a, s) done handler = done
  Ensures-attempt R h (err e, s) raised handler = handler e s raised

  pub Ensures-weaken :
      (P' : A → S → Type 0) (Q' : Error → S → Type 0) (r : Result A × S)
      → Ensures P Q r
      → ((a : A) (s : S) → P a s → P' a s)
      → ((e : Error) (s : S) → Q e s → Q' e s)
      → Ensures P' Q' r
  unfolding Ensures
  Ensures-weaken P' Q' (ok a, s) h p q = p a s h
  Ensures-weaken P' Q' (err e, s) h p q = q e s h
