-- ===== src/Prelude/Positions.antt =====
-- What stands at a position of a list that is cut, joined or filled.
use Prim.Native.Nat.{ℕ, zero, suc, ◌+◌, ◌-◌, ◌≤◌, ◌<◌}
use mathlib.Core.Path.{◌≡◌, refl, ap, ◌∙◌}
use mathlib.Core.List.{List, [], ◌∷◌, ◌++◌}
use native.Mathlib.Omega.{arith}
use light_belt.Prelude.Lists.{length, get_or, take, drop, replicate}

module _ {ℓ} {A : Type ℓ} (d : A) where
  pub get_or-replicate : (n i : ℕ) → get_or (replicate n d) i d ≡ d
  get_or-replicate zero i = refl
  get_or-replicate (suc n) zero = refl
  get_or-replicate (suc n) (suc i) = get_or-replicate n i

  pub get_or_past : (xs : List A) (i : ℕ) → length xs ≤ i → get_or xs i d ≡ d
  get_or_past [] i h = refl
  get_or_past (x ∷ xs) zero h = ground (arith, h)
  get_or_past (x ∷ xs) (suc i) h = get_or_past xs i (omega (arith, h))

  pub get_or-append_left :
      (xs ys : List A) (i : ℕ) → i < length xs → get_or (xs ++ ys) i d ≡ get_or xs i d
  get_or-append_left [] ys i h = ground (arith, h)
  get_or-append_left (x ∷ xs) ys zero h = refl
  get_or-append_left (x ∷ xs) ys (suc i) h = get_or-append_left xs ys i (omega (arith, h))

  pub get_or-append_right :
      (xs ys : List A) (i : ℕ) → get_or (xs ++ ys) (length xs + i) d ≡ get_or ys i d
  get_or-append_right [] ys i = rw (let e : 0 + i ≡ i = omega arith in e) refl
  get_or-append_right (x ∷ xs) ys i =
      rw (let e : suc (length xs) + i ≡ suc (length xs + i) = omega arith in e)
        (get_or-append_right xs ys i)

  pub get_or-take : (n : ℕ) (xs : List A) (i : ℕ) → i < n → get_or (take n xs) i d ≡ get_or xs i d
  get_or-take zero xs i h = ground (arith, h)
  get_or-take (suc n) [] i h = refl
  get_or-take (suc n) (x ∷ xs) zero h = refl
  get_or-take (suc n) (x ∷ xs) (suc i) h = get_or-take n xs i (omega (arith, h))

  pub get_or-drop : (n : ℕ) (xs : List A) (i : ℕ) → get_or (drop n xs) i d ≡ get_or xs (n + i) d
  get_or-drop zero xs i = rw (let e : 0 + i ≡ i = omega arith in e) refl
  get_or-drop (suc n) [] i = refl
  get_or-drop (suc n) (x ∷ xs) i =
      rw (let e : suc n + i ≡ suc (n + i) = omega arith in e) (get_or-drop n xs i)

  pub length-replicate : (n : ℕ) → length (replicate n d) ≡ n
  length-replicate zero = refl
  length-replicate (suc n) = ap (λ (k : ℕ). suc k) (length-replicate n)

  pub get_or-append_past :
      (xs ys : List A) (i : ℕ) → length xs ≤ i → get_or (xs ++ ys) i d ≡ get_or ys (i - length xs) d
  get_or-append_past xs ys i h =
      ap (λ (k : ℕ). get_or (xs ++ ys) k d)
        (let e : i ≡ length xs + (i - length xs) = omega (arith, h) in e)
      ∙ get_or-append_right xs ys (i - length xs)
