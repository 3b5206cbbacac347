-- ===== src/PhysicalMapping/Pixels.antt =====
-- physical.py: where `map` puts a pixel when it fills, reverses and writes a segment.
use light_belt.Prelude.{
  ℕ, suc, ◌+◌, ◌-◌, ◌≤◌, ◌<◌, ◌≡◌, ◌∙◌, refl, sym, ap, List, [], ◌∷◌, ◌++◌, arith, take, drop,
  length, get_or, replicate, leb, leb→le, leb-false→lt, Bool-cases, inl, inr, length-append,
  length-take, length-drop,
}
use light_belt.Prelude.Positions.{
  get_or-replicate, get_or_past, get_or-append_left, get_or-append_past, get_or-take, get_or-drop,
  length-replicate,
}
use light_belt.Wire.Pixels.{Pixel}
use light_belt.PhysicalMapping.Map.{black, fill, reversed, splice}

-- The pixel at a position, black where there is none.
abbrev pub pixel_at : List Pixel → ℕ → Pixel
pixel_at ps i = get_or ps i black

pub length-fill : (count : ℕ) (ps : List Pixel) → length (fill count ps) ≡ count
length-fill count ps =
    length-append (take count ps) (replicate (count - length (take count ps)) black)
    ∙ omega (arith, length-replicate black (count - length (take count ps)), length-take count ps)

pub pixel_at-fill :
    (count : ℕ) (ps : List Pixel) (i : ℕ) → i < count → pixel_at (fill count ps) i ≡ pixel_at ps i
pixel_at-fill count ps i h = elim (Bool-cases (leb (suc i) (length (take count ps)))) [
  | inl e ↦
      get_or-append_left black (take count ps) (replicate (count - length (take count ps)) black) i
        (leb→le _ _ e)
      ∙ get_or-take black count ps i h
  | inr e ↦
      get_or-append_past black (take count ps) (replicate (count - length (take count ps)) black) i
        (omega (arith, leb-false→lt _ _ e))
      ∙ get_or-replicate black (count - length (take count ps)) (i - length (take count ps))
      ∙ sym (get_or_past black ps i (omega (arith, leb-false→lt _ _ e, length-take count ps, h)))
]

pub length-reversed : (ps : List Pixel) → length (reversed ps) ≡ length ps
unfolding reversed
length-reversed [] = refl
length-reversed (p ∷ ps) = length-append (reversed ps) (p ∷ []) ∙ omega (arith, length-reversed ps)

pub pixel_at-reversed :
    (ps : List Pixel) (i : ℕ)
    → i < length ps
    → pixel_at (reversed ps) i ≡ pixel_at ps (length ps - 1 - i)
unfolding reversed
pixel_at-reversed [] i h = refl
pixel_at-reversed (p ∷ ps) i h = elim (Bool-cases (leb (suc i) (length ps))) [
  | inl e ↦
      get_or-append_left black (reversed ps) (p ∷ []) i
        (omega (arith, leb→le _ _ e, length-reversed ps))
      ∙ pixel_at-reversed ps i (leb→le _ _ e)
      ∙ ap (pixel_at (p ∷ ps)) (
          let f : suc (length ps - 1 - i) ≡ suc (length ps) - 1 - i = omega (arith, leb→le _ _ e) in
          f)
  | inr e ↦
      get_or-append_past black (reversed ps) (p ∷ []) i
        (omega (arith, leb-false→lt _ _ e, length-reversed ps))
      ∙ ap (pixel_at (p ∷ []))
          (let f : i - length (reversed ps) ≡ 0 = omega (arith, h, length-reversed ps) in f)
      ∙ ap (pixel_at (p ∷ ps))
          (let f : 0 ≡ suc (length ps) - 1 - i = omega (arith, leb-false→lt _ _ e) in f)
]

pub splice-inside :
    (offset count : ℕ) (source dest : List Pixel) (i : ℕ)
    → length source ≡ count
    → offset + count ≤ length dest
    → i < count
    → pixel_at (splice offset count source dest) (offset + i) ≡ pixel_at source i
splice-inside offset count source dest i size fits h =
    get_or-append_left black (take offset dest ++ source) (drop (offset + count) dest) (offset + i)
      (omega
        (arith, length-append (take offset dest) source, size, h, length-take offset dest, fits))
    ∙ get_or-append_past black (take offset dest) source (offset + i)
        (omega (arith, length-take offset dest))
    ∙ ap (pixel_at source) (
        let e : offset + i - length (take offset dest) ≡ i =
          omega (arith, length-take offset dest, fits) in
        e)

pub splice-before :
    (offset count : ℕ) (source dest : List Pixel) (i : ℕ)
    → offset + count ≤ length dest
    → i < offset
    → pixel_at (splice offset count source dest) i ≡ pixel_at dest i
splice-before offset count source dest i fits h =
    let front : i < length (take offset dest) = omega (arith, length-take offset dest, fits, h) in
    get_or-append_left black (take offset dest ++ source) (drop (offset + count) dest) i
      (omega (arith, length-append (take offset dest) source, front))
    ∙ get_or-append_left black (take offset dest) source i front
    ∙ get_or-take black offset dest i h

pub splice-after :
    (offset count : ℕ) (source dest : List Pixel) (i : ℕ)
    → length source ≡ count
    → offset + count ≤ length dest
    → offset + count ≤ i
    → pixel_at (splice offset count source dest) i ≡ pixel_at dest i
splice-after offset count source dest i size fits h =
    let front : length (take offset dest ++ source) ≡ offset + count =
      omega (arith, length-append (take offset dest) source, length-take offset dest, size, fits) in
    get_or-append_past black (take offset dest ++ source) (drop (offset + count) dest) i
      (omega (arith, front, h))
    ∙ get_or-drop black (offset + count) dest (i - length (take offset dest ++ source))
    ∙ ap (pixel_at dest) (
        let e : offset + count + (i - length (take offset dest ++ source)) ≡ i =
          omega (arith, front, h) in
        e)

pub length-splice :
    (offset count : ℕ) (source dest : List Pixel)
    → length source ≡ count
    → offset + count ≤ length dest
    → length (splice offset count source dest) ≡ length dest
length-splice offset count source dest size fits =
    length-append (take offset dest ++ source) (drop (offset + count) dest)
    ∙ omega (
      arith,
      length-take offset dest,
      length-append (take offset dest) source,
      length-drop (offset + count) dest,
      size,
      fits,
    )
