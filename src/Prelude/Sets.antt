-- ===== src/Prelude/Sets.antt =====
-- Python sets of numbers, as lists without order: membership, uniqueness and equality.
use light_belt.Prelude.{
  ℕ, ◌≡◌, refl, sym, ◌∙◌, Bool, true, false, ◌&&◌, ◌||◌, List, [], ◌∷◌, inl, inr, ◌↔◌, arith, ◌==◌,
  ==→eq, Bool-cases, if◌then◌else◌, &&-true, ||-false,
}

-- `x in xs` on numbers.
unfoldable pub elem : ℕ → List ℕ → Bool
elem a [] = false
elem a (x ∷ xs) = x == a || elem a xs

-- `len(xs) == len(set(xs))`
unfoldable pub distinct : List ℕ → Bool
unfolding elem
distinct [] = true
distinct (x ∷ xs) = (if elem x xs then false else true) && distinct xs

-- `set(xs) <= set(ys)`
unfoldable pub subset : List ℕ → List ℕ → Bool
unfolding elem
subset [] ys = true
subset (x ∷ xs) ys = elem x ys && subset xs ys

-- `set(xs) == set(ys)`
unfoldable pub same_set : List ℕ → List ℕ → Bool
unfolding subset
same_set xs ys = subset xs ys && subset ys xs

-- The members that a loop meets one by one, none of them met before.
abbrev pub Fresh : List ℕ → List ℕ → Type 0
Fresh seen [] = Unit {0}
Fresh seen (x ∷ xs) = (elem x seen ≡ false) × Fresh (x ∷ seen) xs

-- The members that were met, the last one first.
abbrev pub met : List ℕ → List ℕ → List ℕ
met seen [] = seen
met seen (x ∷ xs) = met (x ∷ seen) xs

abbrev Apart : List ℕ → List ℕ → Type 0
Apart xs seen = (x : ℕ) → elem x xs ≡ true → elem x seen ≡ false

Fresh→Apart : (seen xs : List ℕ) → Fresh seen xs → Apart xs seen
unfolding elem
Fresh→Apart seen [] h y m = cc
Fresh→Apart seen (x ∷ xs) h y m = elim (Bool-cases (x == y)) [
  | inl e ↦ rw (← ==→eq x y e) h.0
  | inr e ↦
      let deeper : elem y (x ∷ seen) ≡ false = Fresh→Apart (x ∷ seen) xs h.1 y (ground arith) in
      (||-false _ _ deeper).1
]

Fresh→distinct : (seen xs : List ℕ) → Fresh seen xs → distinct xs ≡ true
unfolding distinct elem
Fresh→distinct seen [] h = refl
Fresh→distinct seen (x ∷ xs) h = elim (Bool-cases (elem x xs)) [
  | inl e ↦ let new : elem x (x ∷ seen) ≡ false = Fresh→Apart (x ∷ seen) xs h.1 x e in ground arith
  | inr e ↦ ground (arith, Fresh→distinct (x ∷ seen) xs h.1)
]

Apart→Fresh : (seen xs : List ℕ) → distinct xs ≡ true → Apart xs seen → Fresh seen xs
unfolding distinct elem
Apart→Fresh seen [] d a = tt
Apart→Fresh seen (x ∷ xs) d a = (
  a x (ground arith),
  Apart→Fresh (x ∷ seen) xs (&&-true _ _ d).1 (λ y m. ground (arith, a y, d)),
)

-- `len(xs) == len(set(xs))` holds exactly when each member is new as it is met.
pub distinct_iff : (xs : List ℕ) → (distinct xs ≡ true) ↔ Fresh [] xs
unfolding elem
distinct_iff xs = (λ d. Apart→Fresh [] xs d (λ y m. refl), Fresh→distinct [] xs)

pub elem-met : (x : ℕ) (seen xs : List ℕ) → elem x (met seen xs) ≡ (elem x xs || elem x seen)
unfolding elem
elem-met x seen [] = refl
elem-met x seen (y ∷ ys) = ground (arith, elem-met x (y ∷ seen) ys)

subset→elem : (xs ys : List ℕ) → subset xs ys ≡ true → (x : ℕ) → elem x xs ≡ true → elem x ys ≡ true
unfolding subset elem
subset→elem [] ys h x m = cc
subset→elem (y ∷ xs) ys h x m = elim (Bool-cases (y == x)) [
  | inl e ↦ rw (← ==→eq y x e) (&&-true _ _ h).0
  | inr e ↦ subset→elem xs ys (&&-true _ _ h).1 x (ground arith)
]

elem→subset :
    (xs ys : List ℕ) → ((x : ℕ) → elem x xs ≡ true → elem x ys ≡ true) → subset xs ys ≡ true
unfolding subset elem
elem→subset [] ys h = refl
elem→subset (x ∷ xs) ys h =
    rw (h x (ground arith), elem→subset xs ys (λ y m. h y (ground arith))) refl

-- Two lists make the same set.
abbrev pub SameSet : List ℕ → List ℕ → Type 0
SameSet xs ys = (x : ℕ) → elem x xs ≡ elem x ys

iff→eq : (a b : Bool) → (a ≡ true → b ≡ true) → (b ≡ true → a ≡ true) → a ≡ b
iff→eq true b f g = sym (f refl)
iff→eq false true f g = g refl
iff→eq false false f g = refl

pub same_set_iff : (xs ys : List ℕ) → (same_set xs ys ≡ true) ↔ SameSet xs ys
unfolding same_set
same_set_iff xs ys = (
  λ h x.
      iff→eq (elem x xs) (elem x ys) (subset→elem xs ys (&&-true _ _ h).0 x)
        (subset→elem ys xs (&&-true _ _ h).1 x),
  λ h. rw (elem→subset xs ys (λ x m. sym (h x) ∙ m), elem→subset ys xs (λ x m. h x ∙ m)) refl,
)
