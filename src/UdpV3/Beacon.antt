-- ===== src/UdpV3/Beacon.antt =====
-- light_engine/outputs/udp_v3.py: `UdpV3ClockBeacon`, the sample of the host's clock that is sent to
-- every node.
pub mod Codec
use light_belt.Prelude.{
  ℕ, ◌+◌, Option, [], ◌∷◌, List, ◌&&◌, ◌==◌, length, take, Result, ok, value_error, ◌>>=◌, ◌>>◌,
  require, caught, guard, and_then,
}
use light_belt.Wire.Struct.{Format, Fields, calcsize, pack, unpack}
use light_belt.Wire.Crc.{crc_length, with_crc, crc_matches}
use light_belt.Wire.Pixels.{max_uint8, max_uint32, max_uint64, require_uint}
use light_belt.UdpV3.Frame.{magic, version, message_type_clock_beacon}

-- ">HBBIQ"
abbrev pub clock_beacon_format : Format
clock_beacon_format = 2 ∷ 1 ∷ 1 ∷ 4 ∷ 8 ∷ []

abbrev pub clock_beacon_body_length : ℕ
clock_beacon_body_length = calcsize clock_beacon_format

abbrev pub clock_beacon_length : ℕ
clock_beacon_length = clock_beacon_body_length + crc_length

pub record UdpV3ClockBeacon : Type 0 where
  pub sequence : ℕ
  pub host_monotonic_us : ℕ
  pub message_type : ℕ

unfoldable pub post_init : UdpV3ClockBeacon → Result (Unit {0})
post_init b = do
  require_uint b.sequence max_uint32
  require_uint b.host_monotonic_us max_uint64
  require_uint b.message_type max_uint8
  require (b.message_type == message_type_clock_beacon) value_error

abbrev pub body_fields : UdpV3ClockBeacon → Fields clock_beacon_format
body_fields b = (magic, (version, (b.message_type, (b.sequence, (b.host_monotonic_us, tt)))))

unfoldable pub encode : UdpV3ClockBeacon → Result (List ℕ)
encode b = do body ← pack clock_beacon_format (body_fields b); with_crc body

-- The constructor call, under `except ValueError: return None`.
unfoldable pub construct : UdpV3ClockBeacon → Option UdpV3ClockBeacon
construct b = caught (do post_init b; ok b)

-- `decode` from the unpacked body on.
unfoldable pub decode_body : List ℕ → Fields clock_beacon_format → Option UdpV3ClockBeacon
decode_body bytes (m, (v, (message_type, (sequence, (host_monotonic_us, _))))) =
    guard
      (m == magic && v == version && message_type == message_type_clock_beacon && crc_matches bytes)
      (construct (record {
        sequence = sequence;
        host_monotonic_us = host_monotonic_us;
        message_type = message_type;
      }))

unfoldable pub decode : List ℕ → Option UdpV3ClockBeacon
decode bytes = guard (length bytes == clock_beacon_length) (
    and_then (unpack clock_beacon_format (take clock_beacon_body_length bytes)) (decode_body bytes))
