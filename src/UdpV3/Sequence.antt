-- ===== src/UdpV3/Sequence.antt =====
-- light_engine/outputs/udp_v3.py: `is_newer_sequence`, the order of frames on a counter of 32 bits
-- that wraps.
use light_belt.Prelude.{
  ℕ, ◌+◌, ◌-◌, ◌%◌, ◌^◌, ◌≤◌, ◌≡◌, Bool, true, false, ◌&&◌, ltb, Result, ok, ◌>>◌, arith,
}
use light_belt.Wire.Pixels.{max_uint32, require_uint}

-- `(candidate - previous) & MAX_UINT32`
abbrev pub distance : ℕ → ℕ → ℕ
distance candidate previous = (candidate + 2 ^ 32 - previous) % 2 ^ 32

-- The comparison, after the two guards.
abbrev pub is_ahead : ℕ → ℕ → Bool
is_ahead candidate previous =
    ltb 0 (distance candidate previous) && ltb (distance candidate previous) 0x8000_0000

unfoldable pub is_newer_sequence : ℕ → ℕ → Result Bool
is_newer_sequence candidate previous = do
  require_uint candidate max_uint32
  require_uint previous max_uint32
  ok (is_ahead candidate previous)

-- From a previous number of 32 bits, a frame that a sender numbers fewer than 2 ** 32 steps later,
-- also where the counter wraps in between, is newer exactly when the steps are at least 1 and fewer
-- than 2 ** 31.
pub is_newer_sequence-step :
    (previous step : ℕ)
    → previous ≤ max_uint32
    → step ≤ max_uint32
    → is_newer_sequence ((previous + step) % 2 ^ 32) previous ≡ ok (ltb 0 step && ltb step (2 ^ 31))
unfolding is_newer_sequence
is_newer_sequence-step previous step hp hs = ground arith

-- What is newer than a frame is never older than it too.
pub is_newer_sequence_asymm :
    (a b : ℕ) → is_newer_sequence a b ≡ ok true → is_newer_sequence b a ≡ ok false
unfolding is_newer_sequence
is_newer_sequence_asymm a b h = ground arith

-- No exception for numbers of 32 bits.
pub is_newer_sequence_total :
    (a b : ℕ) → a ≤ max_uint32 → b ≤ max_uint32 → is_newer_sequence a b ≡ ok (is_ahead a b)
unfolding is_newer_sequence
is_newer_sequence_total a b ha hb = ground arith
