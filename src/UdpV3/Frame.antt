-- ===== src/UdpV3/Frame.antt =====
-- light_engine/outputs/udp_v3.py: what whole frames and chunks share, the header with its constants
-- and the rule for scheduled frames.
use light_belt.Prelude.{
  ℕ, Bool, true, Option, none, some, [], ◌∷◌, ◌==◌, not, same, if◌then◌else◌, is_some, Result, ok,
  value_error, ◌>>◌, require,
}
use light_belt.Prelude.Bits.{high_bits, test_bit}
use light_belt.Wire.Struct.{Format, calcsize}
use light_belt.Wire.Pixels.{max_uint64, require_uint}

abbrev pub magic : ℕ
magic = 0x4C45

abbrev pub version : ℕ
version = 0x03

abbrev pub message_type_frame : ℕ
message_type_frame = 0x01

abbrev pub message_type_clock_beacon : ℕ
message_type_clock_beacon = 0x02

abbrev pub message_type_frame_chunk : ℕ
message_type_frame_chunk = 0x03

-- `flags & ~ALLOWED_FLAGS == 0`, where the allowed flags are the three lowest bits
abbrev pub allowed_flags : ℕ → Bool
allowed_flags flags = high_bits flags 3 == 0

-- `bool(flags & FLAG_KEY_FRAME)`
abbrev pub is_key_frame : ℕ → Bool
is_key_frame flags = test_bit flags 1

-- `bool(flags & FLAG_SCHEDULED_APPLY)`
abbrev pub is_scheduled : ℕ → Bool
is_scheduled flags = test_bit flags 2

-- ">HBBBBIQQBH"
abbrev pub header_format : Format
header_format = 2 ∷ 1 ∷ 1 ∷ 1 ∷ 1 ∷ 4 ∷ 8 ∷ 8 ∷ 1 ∷ 2 ∷ []

abbrev pub header_length : ℕ
header_length = calcsize header_format

-- `0 if apply_at_us is None else apply_at_us`
abbrev pub apply_raw : Option ℕ → ℕ
apply_raw none = 0
apply_raw (some t) = t

-- `None if apply_at_raw == 0 else apply_at_raw`
abbrev pub apply_of : ℕ → Option ℕ
apply_of raw = if raw == 0 then none else some raw

-- `if apply_at_us is not None:` a time for the frame is a uint64 and not 0.
abbrev pub check_apply : Option ℕ → Result (Unit {0})
check_apply none = ok tt
check_apply (some t) = do require_uint t max_uint64; require (not (t == 0)) value_error

-- `is_scheduled == (apply_at_us is not None)`
abbrev pub schedule_agrees : ℕ → Option ℕ → Bool
schedule_agrees flags apply_at = same (is_scheduled flags) (is_some apply_at)

-- `expected is not None and value != expected` is refused.
abbrev pub expects : Option ℕ → ℕ → Bool
expects none value = true
expects (some wanted) value = value == wanted
