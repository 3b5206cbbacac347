-- ===== src/Wire/Pixels.antt =====
-- The guards and the RGB payload that the codecs of light_engine/outputs/ share: `_require_uint`
-- and `_pixels_to_payload` (udp_v2.py and udp_v3.py have the same text), and the loop of the
-- decoders that reads the payload back in steps of three bytes.
use light_belt.Prelude.{
  ℕ, zero, suc, ◌*◌, ◌≤◌, ◌≡◌, refl, ap, List, [], ◌∷◌, arith, leb, leb→le, length, All, Result, ok,
  value_error, ◌>>=◌, ◌>>◌, require, require-eq-ok, >>=-eq-ok,
}
use light_belt.Wire.Bytes.{AreBytes}

abbrev pub max_uint8 : ℕ
max_uint8 = 0xFF

abbrev pub max_uint16 : ℕ
max_uint16 = 0xFFFF

abbrev pub max_uint32 : ℕ
max_uint32 = 0xFFFF_FFFF

abbrev pub max_uint64 : ℕ
max_uint64 = 0xFFFF_FFFF_FFFF_FFFF

abbrev pub max_udp_payload : ℕ
max_udp_payload = 65507

-- A value is a natural number here, so the test for an `int` that is not negative is passed.
abbrev pub require_uint : ℕ → ℕ → Result (Unit {0})
require_uint value maximum = require (leb value maximum) value_error

abbrev pub Pixel : Type 0
Pixel = ℕ × ℕ × ℕ

unfoldable pub pixels_to_payload : List Pixel → Result (List ℕ)
pixels_to_payload [] = ok []
pixels_to_payload ((r, g, b) ∷ pixels) = do
  require_uint r max_uint8
  require_uint g max_uint8
  require_uint b max_uint8
  payload ← pixels_to_payload pixels
  ok (r ∷ g ∷ b ∷ payload)

-- `for index in range(0, length, 3)` over the payload of a decoder.
unfoldable pub payload_to_pixels : List ℕ → List Pixel
payload_to_pixels [] = []
payload_to_pixels (r ∷ []) = []
payload_to_pixels (r ∷ g ∷ []) = []
payload_to_pixels (r ∷ g ∷ b ∷ payload) = (r, g, b) ∷ payload_to_pixels payload

abbrev pub IsPixel : Pixel → Type 0
IsPixel (r, g, b) = (r ≤ max_uint8) × (g ≤ max_uint8) × (b ≤ max_uint8)

pub flat : List Pixel → List ℕ
flat [] = []
flat ((r, g, b) ∷ pixels) = r ∷ g ∷ b ∷ flat pixels

pub pixels_to_payload-flat :
    (pixels : List Pixel) → All IsPixel pixels → pixels_to_payload pixels ≡ ok (flat pixels)
unfolding pixels_to_payload flat
pixels_to_payload-flat [] h = refl
pixels_to_payload-flat ((r, g, b) ∷ pixels) h =
    ground (arith, pixels_to_payload-flat pixels h.1, h.0)

pub pixels_to_payload-eq-ok :
    (pixels : List Pixel) (payload : List ℕ)
    → pixels_to_payload pixels ≡ ok payload
    → All IsPixel pixels
unfolding pixels_to_payload
pixels_to_payload-eq-ok [] payload h = tt
pixels_to_payload-eq-ok ((r, g, b) ∷ pixels) payload h =
    let (hr, kr) = require-eq-ok _ _ _ h in
    let (hg, kg) = require-eq-ok _ _ _ kr in
    let (hb, kb) = require-eq-ok _ _ _ kg in
    let (rest, p, _) = >>=-eq-ok (pixels_to_payload pixels) _ kb in
    (
      (leb→le r max_uint8 hr, leb→le g max_uint8 hg, leb→le b max_uint8 hb),
      pixels_to_payload-eq-ok pixels rest p,
    )

pub length-flat : (pixels : List Pixel) → length (flat pixels) ≡ length pixels * 3
unfolding flat
length-flat [] = omega arith
length-flat ((r, g, b) ∷ pixels) = omega (arith, length-flat pixels)

pub flat-AreBytes : (pixels : List Pixel) → All IsPixel pixels → AreBytes (flat pixels)
unfolding flat
flat-AreBytes [] h = tt
flat-AreBytes ((r, g, b) ∷ pixels) h =
    (omega (arith, h.0), (omega (arith, h.0), (omega (arith, h.0), flat-AreBytes pixels h.1)))

pub payload_to_pixels-flat : (pixels : List Pixel) → payload_to_pixels (flat pixels) ≡ pixels
unfolding payload_to_pixels flat
payload_to_pixels-flat [] = refl
payload_to_pixels-flat ((r, g, b) ∷ pixels) = ap (◌∷◌ (r, g, b)) (payload_to_pixels-flat pixels)

-- A payload of whole pixels is read without loss, and its pixels are valid.
pub flat-payload_to_pixels :
    (n : ℕ) (payload : List ℕ)
    → length payload ≡ n * 3
    → AreBytes payload
    → (flat (payload_to_pixels payload) ≡ payload)
      × (length (payload_to_pixels payload) ≡ n)
      × All IsPixel (payload_to_pixels payload)
unfolding payload_to_pixels flat
flat-payload_to_pixels zero [] e h = (refl, omega arith, tt)
flat-payload_to_pixels (suc n) [] e h = absurd (omega arith)
flat-payload_to_pixels n (r ∷ []) e h = absurd (omega arith)
flat-payload_to_pixels n (r ∷ g ∷ []) e h = absurd (omega arith)
flat-payload_to_pixels zero (r ∷ g ∷ b ∷ payload) e h = absurd (omega arith)
flat-payload_to_pixels (suc n) (r ∷ g ∷ b ∷ payload) e h =
    let (p, q, v) = flat-payload_to_pixels n payload (omega arith) h.1.1.1 in
    (
      ap (λ (t : List ℕ). r ∷ g ∷ b ∷ t) p,
      omega arith,
      ((omega (arith, h.0), omega (arith, h.1.0), omega (arith, h.1.1.0)), v),
    )
