-- ===== src/PhysicalMapping/Claims.antt =====
-- physical.py: which pixels the loop over a segment's pixels occupies, and when it raises.
use light_belt.Prelude.{
  ℕ, zero, suc, ◌+◌, ◌≤◌, ◌<◌, ◌≡◌, refl, Bool, false, ◌∷◌, ◌&&◌, ◌||◌, not, leb, ltb, ◌==◌, arith,
  Bool-cases, inl, inr, ==→eq, ||-false, ok-injective, ok, value_error, require-eq-ok,
}
use light_belt.PhysicalMapping.{Occupied, is_occupied, occupy}

-- The pixel is one of the `count` pixels of the node from `first` on.
abbrev pub in_range : ℕ → ℕ → ℕ → ℕ → ℕ → Bool
in_range node first count n pixel = n == node && (leb first pixel && ltb pixel (first + count))

-- No pixel of the range is occupied.
abbrev pub Free : ℕ → ℕ → ℕ → Occupied → Type 0
Free node first count occupied =
    (q : ℕ) → first ≤ q → q < first + count → is_occupied node q occupied ≡ false

-- What is occupied after a range.
abbrev pub Adds : ℕ → ℕ → ℕ → Occupied → Occupied → Type 0
Adds node first count occupied more =
    (n q : ℕ) → is_occupied n q more ≡ (in_range node first count n q || is_occupied n q occupied)

pub occupy-Free :
    (node first count : ℕ) (occupied more : Occupied)
    → occupy node first count occupied ≡ ok more
    → Free node first count occupied × Adds node first count occupied more
unfolding occupy is_occupied
occupy-Free node first zero occupied more h =
    (λ q a b. ground (arith, a, b), λ n q. rw (← ok-injective h) (ground arith))
occupy-Free node first (suc count) occupied more h =
    let (free, rest) =
      require-eq-ok (not (is_occupied node first occupied)) value_error
        (occupy node (first + 1) count ((node, first) ∷ occupied)) h in
    let (later, adds) = occupy-Free node (first + 1) count ((node, first) ∷ occupied) more rest in
    (
      λ q a b. elim (Bool-cases (q == first)) [
        | inl e ↦ rw (==→eq q first e) (ground (arith, free))
        | inr e ↦ (||-false _ _ (later q (ground (arith, a, e)) (omega (arith, b)))).1
      ],
      λ n q. rw (adds n q) (ground arith),
    )

pub Free-occupy :
    (node first count : ℕ) (occupied : Occupied)
    → Free node first count occupied
    → (more : Occupied) × (occupy node first count occupied ≡ ok more)
unfolding occupy is_occupied
Free-occupy node first zero occupied h = (occupied, refl)
Free-occupy node first (suc count) occupied h =
    let (more, e) =
      Free-occupy node (first + 1) count ((node, first) ∷ occupied)
        (λ q a b. rw (h q (omega (arith, a)) (omega (arith, b))) (ground (arith, a))) in
    (more, rw (h first (omega arith) (omega arith)) e)
