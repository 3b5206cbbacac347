-- ===== src/PhysicalMapping/Found.antt =====
-- physical.py: `_validate` gives each digital node a number of its own.
use light_belt.Prelude.{
  ℕ, ◌≡◌, refl, true, false, none, some, List, [], ◌∷◌, arith, Bool-cases, inl, inr, ◌==◌, ==→eq,
  ==_refl, ||-true, All, ok,
}
use light_belt.Prelude.Sets.{elem}
use light_belt.PhysicalMapping.{DigitalNodeMapping, find_node, dict_get, check_digital_nodes}

-- Each node is the one that is found by its number.
abbrev pub IsFound : List DigitalNodeMapping → DigitalNodeMapping → Type 0
IsFound nodes n = find_node n.node_id nodes ≡ some n

-- A node that is accepted has a new number, and the others are accepted after it.
new_number :
    (used : List ℕ) (n : DigitalNodeMapping) (ns : List DigitalNodeMapping)
    → check_digital_nodes used (n ∷ ns) ≡ ok tt
    → (elem n.node_id used ≡ false) × (check_digital_nodes (n.node_id ∷ used) ns ≡ ok tt)
unfolding check_digital_nodes
new_number used n ns h = ground (arith, h)

absent_later :
    (used : List ℕ) (ns : List DigitalNodeMapping)
    → check_digital_nodes used ns ≡ ok tt
    → (k : ℕ) → elem k used ≡ true
    → find_node k ns ≡ none
unfolding check_digital_nodes dict_get elem
absent_later used [] h k m = refl
absent_later used (n ∷ ns) h k m =
    let (new, rest) = new_number used n ns h in
    rw (absent_later (n.node_id ∷ used) ns rest k (rw m (||-true (n.node_id == k))))
      (elim (Bool-cases (n.node_id == k)) [
        | inl e ↦ ground (arith, rw (==→eq _ _ e) at new, m)
        | inr e ↦ rw e refl
      ])

IsFound-later :
    (n : DigitalNodeMapping) (nodes ns : List DigitalNodeMapping)
    → All (IsFound ns) nodes
    → All (IsFound (n ∷ ns)) nodes
unfolding dict_get
IsFound-later n [] ns h = tt
IsFound-later n (m ∷ nodes) ns h = (rw h.0 refl, IsFound-later n nodes ns h.1)

pub all-IsFound :
    (used : List ℕ) (ns : List DigitalNodeMapping)
    → check_digital_nodes used ns ≡ ok tt
    → All (IsFound ns) ns
unfolding check_digital_nodes dict_get elem
all-IsFound used [] h = tt
all-IsFound used (n ∷ ns) h =
    let (new, rest) = new_number used n ns h in
    (
      rw
          (
            absent_later (n.node_id ∷ used) ns rest n.node_id (rw (==_refl n.node_id) refl),
            ==_refl n.node_id,
          )
          refl,
      IsFound-later n ns ns (all-IsFound (n.node_id ∷ used) ns rest),
    )
