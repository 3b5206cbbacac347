-- ===== src/Prelude/Sorting.antt =====
-- `sorted(items, key=...)`: a stable sort by a number.
use Prim.Native.Nat.{ℕ, suc, ◌≤◌}
use mathlib.Core.Logic.{inl, inr}
use mathlib.Core.List.{List, [], ◌∷◌, Perm}
use mathlib.Core.List.Perm
use native.Mathlib.Omega.{arith}
use light_belt.Prelude.Lists.{All, length}
use mathlib.Core.Path.{◌≡◌, refl, ap, ◌∙◌}
use light_belt.Prelude.Tests.{◌==◌, ==→eq, leb, if◌then◌else◌, Bool-cases, leb→le, leb-false→lt}

module _ {A : Type 0} (key : A → ℕ) where
  -- Before the items of the same key.
  unfoldable pub insert_by : A → List A → List A
  insert_by x [] = x ∷ []
  insert_by x (y ∷ ys) = if leb (key x) (key y) then x ∷ y ∷ ys else y ∷ insert_by x ys

  unfoldable pub sort_by : List A → List A
  unfolding insert_by
  sort_by [] = []
  sort_by (x ∷ xs) = insert_by x (sort_by xs)

  -- The first item's key is this one at least.
  abbrev Starts : ℕ → List A → Type 0
  Starts n [] = Unit {0}
  Starts n (x ∷ xs) = n ≤ key x

  abbrev pub IsSortedBy : List A → Type 0
  IsSortedBy [] = Unit {0}
  IsSortedBy (x ∷ xs) = Starts (key x) xs × IsSortedBy xs

  insert_by-Starts :
      (n : ℕ) (x : A) (ys : List A) → n ≤ key x → Starts n ys → Starts n (insert_by x ys)
  unfolding insert_by
  insert_by-Starts n x [] h k = h
  insert_by-Starts n x (y ∷ ys) h k = elim (Bool-cases (leb (key x) (key y))) [
    | inl e ↦ rw e h
    | inr e ↦ rw e k
  ]

  insert_by-IsSortedBy : (x : A) (ys : List A) → IsSortedBy ys → IsSortedBy (insert_by x ys)
  unfolding insert_by
  insert_by-IsSortedBy x [] h = (tt, tt)
  insert_by-IsSortedBy x (y ∷ ys) h = elim (Bool-cases (leb (key x) (key y))) [
    | inl e ↦ rw e (leb→le (key x) (key y) e, h)
    | inr e ↦ rw e (
      insert_by-Starts (key y) x ys (omega (arith, leb-false→lt (key x) (key y) e)) h.0,
      insert_by-IsSortedBy x ys h.1,
    )
  ]

  pub sort_by-IsSortedBy : (xs : List A) → IsSortedBy (sort_by xs)
  unfolding sort_by
  sort_by-IsSortedBy [] = tt
  sort_by-IsSortedBy (x ∷ xs) = insert_by-IsSortedBy x (sort_by xs) (sort_by-IsSortedBy xs)

  insert_by-perm : (x : A) (ys : List A) → Perm (insert_by x ys) (x ∷ ys)
  unfolding insert_by
  insert_by-perm x [] = Perm.refl (x ∷ [])
  insert_by-perm x (y ∷ ys) = elim (Bool-cases (leb (key x) (key y))) [
    | inl e ↦ rw e (Perm.refl (x ∷ y ∷ ys))
    | inr e ↦ rw e (Perm.trans (Perm.cons y (insert_by-perm x ys)) (Perm.swap x y ys))
  ]

  pub sort_by-perm : (xs : List A) → Perm (sort_by xs) xs
  unfolding sort_by
  sort_by-perm [] = Perm.refl []
  sort_by-perm (x ∷ xs) = Perm.trans (insert_by-perm x (sort_by xs)) (Perm.cons x (sort_by-perm xs))

  length-insert_by : (x : A) (ys : List A) → length (insert_by x ys) ≡ suc (length ys)
  unfolding insert_by
  length-insert_by x [] = refl
  length-insert_by x (y ∷ ys) = elim (Bool-cases (leb (key x) (key y))) [
    | inl e ↦ rw e refl
    | inr e ↦ rw e (omega (arith, length-insert_by x ys))
  ]

  pub length-sort_by : (xs : List A) → length (sort_by xs) ≡ length xs
  unfolding sort_by
  length-sort_by [] = refl
  length-sort_by (x ∷ xs) = omega (arith, length-insert_by x (sort_by xs), length-sort_by xs)

  -- The items of one key, in their order.
  abbrev pub with_key : ℕ → List A → List A
  with_key n [] = []
  with_key n (x ∷ xs) = if n == key x then x ∷ with_key n xs else with_key n xs

  -- The second list has the items of the first one by their keys; those of one key keep their order.
  pub record Ordered (xs ys : List A) : Type 0 where
    pub same_items : Perm ys xs
    pub ascending : IsSortedBy ys
    pub stable : (n : ℕ) → with_key n ys ≡ with_key n xs

  insert_by-with_key :
      (n : ℕ) (x : A) (ys : List A) → with_key n (insert_by x ys) ≡ with_key n (x ∷ ys)
  unfolding insert_by
  insert_by-with_key n x [] = refl
  insert_by-with_key n x (y ∷ ys) = elim (Bool-cases (leb (key x) (key y))) [
    | inl e ↦ rw e refl
    | inr e ↦
        rw (e, insert_by-with_key n x ys)
          (elim (Bool-cases (n == key x)) [
            | inl p ↦ elim (Bool-cases (n == key y)) [
              | inl q ↦ absurd (
                  ground
                    (arith, ==→eq n (key x) p, ==→eq n (key y) q, leb-false→lt (key x) (key y) e))
              | inr q ↦ rw (p, q) refl
            ]
            | inr p ↦ rw p refl
          ])
  ]

  sort_by-with_key : (n : ℕ) (xs : List A) → with_key n (sort_by xs) ≡ with_key n xs
  unfolding sort_by
  sort_by-with_key n [] = refl
  sort_by-with_key n (x ∷ xs) =
      insert_by-with_key n x (sort_by xs)
      ∙ ap (λ (ys : List A). if n == key x then x ∷ ys else ys) (sort_by-with_key n xs)

  pub sort_by-Ordered : (xs : List A) → Ordered xs (sort_by xs)
  sort_by-Ordered xs = record {
    same_items = sort_by-perm xs;
    ascending = sort_by-IsSortedBy xs;
    stable = λ n. sort_by-with_key n xs;
  }

  -- What holds of each item holds of each item of the sorted list.
  module _ {κ} (P : A → Type κ) where
    insert_by-All : (x : A) (ys : List A) → P x → All P ys → All P (insert_by x ys)
    unfolding insert_by
    insert_by-All x [] h hs = (h, tt)
    insert_by-All x (y ∷ ys) h hs = elim (Bool-cases (leb (key x) (key y))) [
      | inl e ↦ rw e (h, hs)
      | inr e ↦ rw e (hs.0, insert_by-All x ys h hs.1)
    ]

    pub sort_by-All : (xs : List A) → All P xs → All P (sort_by xs)
    unfolding sort_by
    sort_by-All [] hs = tt
    sort_by-All (x ∷ xs) hs = insert_by-All x (sort_by xs) hs.0 (sort_by-All xs hs.1)

    -- And the other way.
    All-insert_by : (x : A) (ys : List A) → All P (insert_by x ys) → P x × All P ys
    unfolding insert_by
    All-insert_by x [] h = (h.0, tt)
    All-insert_by x (y ∷ ys) h = elim (Bool-cases (leb (key x) (key y))) [
      | inl e ↦ let k = rw e at h in (k.0, k.1)
      | inr e ↦ let k = rw e at h in let (hx, hs) = All-insert_by x ys k.1 in (hx, (k.0, hs))
    ]

    pub All-sort_by : (xs : List A) → All P (sort_by xs) → All P xs
    unfolding sort_by
    All-sort_by [] h = tt
    All-sort_by (x ∷ xs) h =
        let (hx, hs) = All-insert_by x (sort_by xs) h in (hx, All-sort_by xs hs)
