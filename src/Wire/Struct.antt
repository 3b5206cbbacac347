-- ===== src/Wire/Struct.antt =====
-- `struct.pack`, `struct.unpack` and `struct.calcsize` for big-endian formats of unsigned fields. A
-- format is the list of its fields' widths: B is 1, H is 2, I is 4 and Q is 8.
use light_belt.Prelude.{
  ℕ, ◌+◌, ◌^◌, ◌<◌, ◌≡◌, refl, ap, sym, ◌∙◌, ok-injective, Option, none, some, List, [], ◌∷◌, ◌++◌,
  inl, inr, arith, ltb, lt→ltb, ltb→lt, ltb-false, if◌then◌else◌, Bool-cases, length, length-append,
  All-append, All-take, All-drop, take, drop, take-append, drop-append, take-append-drop,
  length-take, length-drop, Result, ok, err, struct_error, ◌>>=◌, >>=-eq-ok, and_then,
}
use light_belt.Wire.Bytes.{
  IsByte, AreBytes, be_bytes, be_value, be_value-be_bytes, be_bytes-be_value, length-be_bytes,
  be_bytes-AreBytes, be_value-lt,
}

abbrev pub Format : Type 0
Format = List ℕ

-- The values of a format's fields.
abbrev pub Fields : Format → Type 0
Fields [] = Unit {0}
Fields (w ∷ ws) = ℕ × Fields ws

abbrev pub calcsize : Format → ℕ
calcsize [] = 0
calcsize (w ∷ ws) = w + calcsize ws

-- Every value fits its field.
abbrev pub Fits : (ws : Format) → Fields ws → Type 0
Fits [] v = Unit {0}
Fits (w ∷ ws) (v, vs) = (v < 256 ^ w) × Fits ws vs

unfoldable pub pack : (ws : Format) → Fields ws → Result (List ℕ)
pack [] v = ok []
pack (w ∷ ws) (v, vs) =
    if ltb v (256 ^ w) then (do rest ← pack ws vs; ok (be_bytes w v ++ rest)) else err struct_error

-- `none` is `struct.error`: the buffer has another length than the format.
unfoldable pub unpack : (ws : Format) → List ℕ → Option (Fields ws)
unpack [] [] = some tt
unpack [] (b ∷ bs) = none
unpack (w ∷ ws) bs =
    if ltb (length bs) w
    then none
    else and_then (unpack ws (drop w bs)) (λ vs. some (be_value (take w bs), vs))

-- What was packed is unpacked to the same values, and the packing succeeds on values that fit.
pub unpack-pack :
    (ws : Format) (vs : Fields ws)
    → Fits ws vs
    → (bs : List ℕ) × (pack ws vs ≡ ok bs)
      × (unpack ws bs ≡ some vs)
      × (length bs ≡ calcsize ws)
      × AreBytes bs
unfolding pack unpack
unpack-pack [] vs h = ([], refl, refl, refl, tt)
unpack-pack (w ∷ ws) (v, vs) h =
    let (bs, p, q, l, a) = unpack-pack ws vs h.1 in
    (
      be_bytes w v ++ bs,
      rw (lt→ltb v (256 ^ w) h.0, p),
      rw (
        ltb-false (length (be_bytes w v ++ bs)) w
            (omega (arith, length-append (be_bytes w v) bs, length-be_bytes w v)),
        drop-append w (be_bytes w v) bs (length-be_bytes w v),
        q,
        take-append w (be_bytes w v) bs (length-be_bytes w v),
        be_value-be_bytes w v h.0,
      ),
      omega (arith, length-append (be_bytes w v) bs, length-be_bytes w v),
      All-append IsByte (be_bytes w v) bs (be_bytes-AreBytes w v) a,
    )

-- Bytes of the format's length are unpacked, the values fit, and packing gives the bytes back.
pub pack-unpack :
    (ws : Format) (bs : List ℕ)
    → length bs ≡ calcsize ws
    → AreBytes bs
    → (vs : Fields ws) × (unpack ws bs ≡ some vs) × (pack ws vs ≡ ok bs) × Fits ws vs
unfolding pack unpack
pack-unpack [] [] e h = (tt, refl, refl, tt)
pack-unpack [] (b ∷ bs) e h = absurd (omega arith)
pack-unpack (w ∷ ws) bs e h =
    let l : length (take w bs) ≡ w = omega (arith, length-take w bs) in
    let lt = be_value-lt w (take w bs) l (All-take IsByte w bs h) in
    let (vs, p, q, f) =
      pack-unpack ws (drop w bs) (omega (arith, length-drop w bs)) (All-drop IsByte w bs h) in
    (
      (be_value (take w bs), vs),
      rw (ltb-false (length bs) w (omega arith), p),
      rw
          (
            lt→ltb (be_value (take w bs)) (256 ^ w) lt,
            q,
            be_bytes-be_value w (take w bs) l (All-take IsByte w bs h),
          )
          (ap ok (take-append-drop w bs)),
      (lt, f),
    )

-- What a decoder goes on with after it has unpacked a header of the right length.
pub and_then-unpack {ℓ} :
    {A : Type ℓ} (ws : Format) (bs : List ℕ) (f : Fields ws → Option A) {x : A}
    → length bs ≡ calcsize ws
    → AreBytes bs
    → and_then (unpack ws bs) f ≡ some x
    → (vs : Fields ws) × (pack ws vs ≡ ok bs) × (f vs ≡ some x)
and_then-unpack ws bs f e a h =
    let (vs, unpacked, packed, _) = pack-unpack ws bs e a in (vs, packed, rw unpacked at h)

-- A value that does not fit its field is refused.
pub pack-eq-ok : (ws : Format) (vs : Fields ws) (bs : List ℕ) → pack ws vs ≡ ok bs → Fits ws vs
unfolding pack
pack-eq-ok [] vs bs h = tt
pack-eq-ok (w ∷ ws) (v, vs) bs h = elim (Bool-cases (ltb v (256 ^ w))) [
  | inl e ↦
      let (rest, p, _) = >>=-eq-ok (pack ws vs) _ (rw e at h) in
      (ltb→lt v (256 ^ w) e, pack-eq-ok ws vs rest p)
  | inr e ↦ let r : err struct_error ≡ ok bs = rw e at h in cc
]

-- So bytes that `pack` returned are unpacked to the values, and have the format's length.
pub packed-unpack :
    (ws : Format) (vs : Fields ws) (bs : List ℕ)
    → pack ws vs ≡ ok bs
    → (unpack ws bs ≡ some vs) × (length bs ≡ calcsize ws) × AreBytes bs
packed-unpack ws vs bs h =
    let (bs', p, q, l, a) = unpack-pack ws vs (pack-eq-ok ws vs bs h) in
    let same : bs' ≡ bs = ok-injective (sym p ∙ h) in (rw same at q, rw same at l, rw same at a)
