-- ===== src/Wire/Bytes.antt =====
-- Big-endian numbers of a fixed count of bytes, as `struct` writes and reads them.
use native.Mathlib.Nat.{pow-suc}
use light_belt.Prelude.{
  ℕ, zero, suc, ◌+◌, ◌*◌, ◌/◌, ◌%◌, ◌^◌, ◌<◌, ◌≤◌, ◌≡◌, ap, List, [], ◌∷◌, ◌++◌, append-nil, arith,
  length, All,
}

abbrev pub IsByte : ℕ → Type 0
IsByte b = b < 256

abbrev pub AreBytes : List ℕ → Type 0
AreBytes bs = All IsByte bs

-- The last `w` bytes of a number, in front of the bytes that are written already.
bytes_onto : ℕ → ℕ → List ℕ → List ℕ
bytes_onto zero v tail = tail
bytes_onto (suc w) v tail = bytes_onto w (v / 256) (v % 256 ∷ tail)

unfoldable pub be_bytes : ℕ → ℕ → List ℕ
unfolding bytes_onto
be_bytes w v = bytes_onto w v []

value_from : ℕ → List ℕ → ℕ
value_from n [] = n
value_from n (b ∷ bs) = value_from (n * 256 + b) bs

unfoldable pub be_value : List ℕ → ℕ
unfolding value_from
be_value bs = value_from 0 bs

value_from-bytes_onto :
    (w n v : ℕ) (tail : List ℕ)
    → v < 256 ^ w
    → value_from n (bytes_onto w v tail) ≡ value_from (n * 256 ^ w + v) tail
unfolding bytes_onto value_from
value_from-bytes_onto zero n v tail h = rw (let e : n * 256 ^ 0 + v ≡ n = omega arith in e)
value_from-bytes_onto (suc w) n v tail h = rw (
  value_from-bytes_onto w n (v / 256) (v % 256 ∷ tail) (omega (arith, pow-suc 256 w)),
  let e : (n * 256 ^ w + v / 256) * 256 + v % 256 ≡ n * 256 ^ suc w + v =
        omega (arith, ap (λ (p : ℕ). n * p) (pow-suc 256 w), pow-suc 256 w) in
      e,
)

-- A number that fits the bytes is read back.
pub be_value-be_bytes : (w v : ℕ) → v < 256 ^ w → be_value (be_bytes w v) ≡ v
unfolding be_value be_bytes
be_value-be_bytes w v h = rw (value_from-bytes_onto w 0 v [] h) (omega arith)

bytes_onto-value_from :
    (bs : List ℕ) (k n : ℕ) (tail : List ℕ)
    → AreBytes bs
    → bytes_onto (length bs + k) (value_from n bs) tail ≡ bytes_onto k n (bs ++ tail)
unfolding bytes_onto value_from
bytes_onto-value_from [] k n tail h = rw (let e : 0 + k ≡ k = omega arith in e)
bytes_onto-value_from (b ∷ bs) k n tail h = rw (
  let e : suc (length bs) + k ≡ length bs + suc k = omega arith in e,
  bytes_onto-value_from bs (suc k) (n * 256 + b) tail h.1,
  let e : (n * 256 + b) / 256 ≡ n = omega (arith, h.0) in e,
  let e : (n * 256 + b) % 256 ≡ b = omega (arith, h.0) in e,
)

-- Bytes that were read as a number are written back.
pub be_bytes-be_value :
    (w : ℕ) (bs : List ℕ) → length bs ≡ w → AreBytes bs → be_bytes w (be_value bs) ≡ bs
unfolding be_value be_bytes bytes_onto
be_bytes-be_value w bs e h =
    rw (let e' : w ≡ length bs + 0 = omega arith in e', bytes_onto-value_from bs 0 0 [] h)
      (append-nil bs)

length-bytes_onto : (w v : ℕ) (tail : List ℕ) → length (bytes_onto w v tail) ≡ w + length tail
unfolding bytes_onto
length-bytes_onto zero v tail = omega arith
length-bytes_onto (suc w) v tail = omega (arith, length-bytes_onto w (v / 256) (v % 256 ∷ tail))

pub length-be_bytes : (w v : ℕ) → length (be_bytes w v) ≡ w
unfolding be_bytes
length-be_bytes w v = omega (arith, length-bytes_onto w v [])

bytes_onto-AreBytes : (w v : ℕ) (tail : List ℕ) → AreBytes tail → AreBytes (bytes_onto w v tail)
unfolding bytes_onto
bytes_onto-AreBytes zero v tail h = h
bytes_onto-AreBytes (suc w) v tail h = bytes_onto-AreBytes w (v / 256) _ (omega arith, h)

pub be_bytes-AreBytes : (w v : ℕ) → AreBytes (be_bytes w v)
unfolding be_bytes
be_bytes-AreBytes w v = bytes_onto-AreBytes w v [] tt

mul_mono : (a c p : ℕ) → a ≤ c → a * p ≤ c * p
mul_mono a c p h = grind arith

value_from-lt : (bs : List ℕ) (n : ℕ) → AreBytes bs → value_from n bs < (n + 1) * 256 ^ length bs
unfolding value_from
value_from-lt [] n h = omega arith
value_from-lt (b ∷ bs) n h =
    let room : (n * 256 + b + 1) * 256 ^ length bs ≤ (n + 1) * 256 * 256 ^ length bs =
      mul_mono (n * 256 + b + 1) ((n + 1) * 256) (256 ^ length bs) (omega (arith, h.0)) in
    let split : (n + 1) * 256 ^ suc (length bs) ≡ (n + 1) * (256 ^ length bs * 256) =
      ap (λ (p : ℕ). (n + 1) * p) (pow-suc 256 (length bs)) in
    omega (arith, value_from-lt bs (n * 256 + b) h.1)

-- The number that `w` bytes hold is below 256 ^ w.
pub be_value-lt : (w : ℕ) (bs : List ℕ) → length bs ≡ w → AreBytes bs → be_value bs < 256 ^ w
unfolding be_value
be_value-lt w bs e h = rw (← e) (omega (arith, value_from-lt bs 0 h))
