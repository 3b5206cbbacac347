-- ===== src/Wire/Crc.antt =====
-- The CRC-32 that closes a UDP datagram: `crc32` of light_engine/outputs/udp_v2.py, which is
-- `zlib.crc32`, and the two ways in which the codecs use it.
use light_belt.Prelude.{
  ℕ, zero, suc, ◌+◌, ◌-◌, ◌/◌, ◌%◌, ◌^◌, ◌≤◌, ◌<◌, ◌≡◌, refl, Bool, true, List, [], ◌∷◌, ◌++◌,
  bit_xor, arith, append-nil, append_assoc, lt→ltb, ◌==◌, ==→eq, eq→==, if◌then◌else◌, length, take,
  drop, length-append, length-drop, take-append, drop-append, take-append-drop, take-take-drop,
  All-append, All-drop, Result, ok, ◌>>=◌,
}
use light_belt.Wire.Bytes.{
  IsByte, AreBytes, be_bytes, be_value, be_value-be_bytes, be_bytes-be_value, length-be_bytes,
  be_bytes-AreBytes,
}
use light_belt.Wire.Struct.{pack}

-- Eight rounds of the reflected polynomial 0xEDB88320 for each byte, as zlib documents them.
crc32_rounds : ℕ → ℕ → ℕ
crc32_rounds zero crc = crc
crc32_rounds (suc n) crc =
    crc32_rounds n (if crc % 2 == 1 then bit_xor (crc / 2) 0xEDB8_8320 else crc / 2)

crc32_bytes : ℕ → List ℕ → ℕ
unfolding crc32_rounds
crc32_bytes crc [] = crc
crc32_bytes crc (b ∷ bs) = crc32_bytes (crc32_rounds 8 (bit_xor crc b)) bs

zlib_crc32 : List ℕ → ℕ
unfolding crc32_bytes
zlib_crc32 bs = bit_xor (crc32_bytes 0xFFFF_FFFF bs) 0xFFFF_FFFF

unfoldable pub crc32 : List ℕ → ℕ
unfolding zlib_crc32
crc32 bs = zlib_crc32 bs % 2 ^ 32

abbrev pub crc_length : ℕ
crc_length = 4

-- `raw + struct.pack(">I", crc32(raw))`
unfoldable pub with_crc : List ℕ → Result (List ℕ)
unfolding pack
with_crc raw = do tail ← pack (4 ∷ []) (crc32 raw, tt); ok (raw ++ tail)

-- `crc32(data[:-4]) == struct.unpack(">I", data[-4:])[0]`
unfoldable pub crc_matches : List ℕ → Bool
crc_matches bs =
    crc32 (take (length bs - crc_length) bs) == be_value (drop (length bs - crc_length) bs)

pub sealed : List ℕ → List ℕ
sealed raw = raw ++ be_bytes 4 (crc32 raw)

crc32-lt : (bs : List ℕ) → crc32 bs < 256 ^ 4
unfolding crc32
crc32-lt bs = omega arith

pub with_crc-eq : (raw : List ℕ) → with_crc raw ≡ ok (sealed raw)
unfolding with_crc sealed
with_crc-eq raw = rw (lt→ltb (crc32 raw) (256 ^ 4) (crc32-lt raw), append-nil)

pub length-sealed : (raw : List ℕ) → length (sealed raw) ≡ length raw + crc_length
unfolding sealed
length-sealed raw =
    omega (arith, length-append raw (be_bytes 4 (crc32 raw)), length-be_bytes 4 (crc32 raw))

-- A sealed header and body are cut apart again.
module _ (header body : List ℕ) {n : ℕ} (e : length header ≡ n) where
  pub take-sealed : take n (sealed (header ++ body)) ≡ header
  unfolding sealed
  take-sealed =
      rw (append_assoc header body (be_bytes 4 (crc32 (header ++ body)))) (take-append n header _ e)

  pub drop-sealed : {k : ℕ} → length body ≡ k → take k (drop n (sealed (header ++ body))) ≡ body
  unfolding sealed
  drop-sealed {k} f =
      rw
        (
          append_assoc header body (be_bytes 4 (crc32 (header ++ body))),
          drop-append n header (body ++ be_bytes 4 (crc32 (header ++ body))) e,
        )
        (take-append k body _ f)

pub sealed-AreBytes : (raw : List ℕ) → AreBytes raw → AreBytes (sealed raw)
unfolding sealed
sealed-AreBytes raw h =
    All-append IsByte raw (be_bytes 4 (crc32 raw)) h (be_bytes-AreBytes 4 (crc32 raw))

body_length : (raw : List ℕ) → length (sealed raw) - crc_length ≡ length raw
body_length raw = omega (arith, length-sealed raw)

pub crc_matches-sealed : (raw : List ℕ) → crc_matches (sealed raw) ≡ true
unfolding crc_matches sealed
crc_matches-sealed raw =
    rw
      (
        body_length raw,
        take-append (length raw) raw (be_bytes 4 (crc32 raw)) refl,
        drop-append (length raw) raw (be_bytes 4 (crc32 raw)) refl,
        be_value-be_bytes 4 (crc32 raw) (crc32-lt raw),
      )
      (eq→== (crc32 raw) (crc32 raw) refl)

-- Bytes that pass the check are the sealed form of what stands before the checksum.
pub crc_matches→sealed :
    (bs : List ℕ)
    → AreBytes bs
    → crc_length ≤ length bs
    → crc_matches bs ≡ true
    → sealed (take (length bs - crc_length) bs) ≡ bs
unfolding crc_matches sealed
crc_matches→sealed bs h long e =
    rw
      (
        ==→eq _ _ e,
        be_bytes-be_value 4 (drop (length bs - crc_length) bs)
            (omega (arith, length-drop (length bs - crc_length) bs))
            (All-drop IsByte (length bs - crc_length) bs h),
      )
      (take-append-drop (length bs - crc_length) bs)

-- So a header and a body that stand before a checksum that matches are all of the bytes.
pub cut→sealed :
    (n k : ℕ) (bs : List ℕ)
    → AreBytes bs
    → length bs ≡ n + k + crc_length
    → crc_matches bs ≡ true
    → sealed (take n bs ++ take k (drop n bs)) ≡ bs
cut→sealed n k bs h e m =
    rw (take-take-drop n k bs, let f : n + k ≡ length bs - crc_length = omega arith in f)
      (crc_matches→sealed bs h (omega arith) m)

crc32_check :
    crc32 (0x31 ∷ 0x32 ∷ 0x33 ∷ 0x34 ∷ 0x35 ∷ 0x36 ∷ 0x37 ∷ 0x38 ∷ 0x39 ∷ []) ≡ 0xCBF4_3926
unfolding crc32
crc32_check = refl
