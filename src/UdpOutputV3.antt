-- ===== src/UdpOutputV3.antt =====
-- light_engine/outputs/udp_output.py: `UdpOutputV3`, its state, its clock beacons and the time at which
-- it asks the nodes to show a frame. Its flush is in UdpOutputV3/Flush.
pub mod Flush
pub mod Accounting
pub mod Sending
pub mod Counting
pub mod Reading
pub mod Beacons
pub mod Announcing
pub mod Schedule
mod Examples
use light_belt.Prelude.{
  ℕ, ◌+◌, zero, suc, ◌-◌, ◌%◌, ◌^◌, Bool, true, false, Option, none, some, List, [], ◌∷◌, ◌&&◌, not,
  leb, ltb, ◌==◌, if◌then◌else◌, Error, Result, ok, err, value_error, runtime_error,
}
use light_belt.Prelude
use light_belt.Prelude.Actions.{
  Action, pure, raise, gets, modify, of_result, ◌>>=◌, ◌>>◌, attempt, when, on_part, returned,
  handle, resume,
}
use light_belt.Prelude.Sets.{elem}
use light_belt.Wire.Pixels.{max_uint32, max_uint64}
use light_belt.Frames.{Address}
use light_belt.UdpV3.Beacon
use light_belt.UdpV3.Beacon.{UdpV3ClockBeacon}
use light_belt.Transport.{
  Mode, is_production, Reason, beacon_error, startup_error, World, Sender, set_error, set_healthy,
  drop_packet, count_packet, send_datagram, open_socket, close_socket,
}
use light_belt.Transport

abbrev pub max_schedule_lead_us : ℕ
max_schedule_lead_us = 100_000

-- `_require_int_range`
abbrev pub require_int_range : ℕ → ℕ → ℕ → Result (Unit {0})
require_int_range value minimum maximum =
    Prelude.require (leb minimum value && leb value maximum) value_error

pub record UdpOutputV3 (W : Type 0) : Type 0 where
  pub base : Sender W
  pub scheduled_apply : Bool
  pub lead_us : ℕ
  pub session_start_repeats : ℕ
  pub session_start_spacing_us : ℕ
  pub beacon_addresses : List Address
  pub beacon_interval_us : ℕ
  pub startup_beacons : ℕ
  pub startup_beacon_spacing_us : ℕ
  pub needs_key_frame : Bool
  pub next_beacon_sequence : ℕ
  pub last_beacon_us : Option ℕ
  pub last_clock_read_us : Option ℕ

abbrev pub address_eq : Address → Address → Bool
address_eq (host, port) (other, other_port) = host == other && port == other_port

abbrev pub has_address : Address → List Address → Bool
has_address a [] = false
has_address a (b ∷ bs) = if address_eq a b then true else has_address a bs

-- `len(set(addresses)) != len(addresses)` is refused, and every port is checked.
unfoldable pub check_addresses : List Address → Result (Unit {0})
check_addresses [] = ok tt
check_addresses (a ∷ rest) = Prelude.◌>>◌ (require_int_range a.1 1 65535) (check_addresses rest)

unfoldable pub unique_addresses : List Address → Bool
unique_addresses [] = true
unique_addresses (a ∷ rest) = not (has_address a rest) && unique_addresses rest

-- The checks of `__init__` on its numbers and its addresses.
unfoldable pub check_settings : {W : Type 0} → UdpOutputV3 W → Result (Unit {0})
check_settings s = Prelude.◌>>◌ (require_int_range s.lead_us 1 max_schedule_lead_us) (
    Prelude.◌>>◌ (require_int_range s.session_start_repeats 2 10) (
      Prelude.◌>>◌ (require_int_range s.session_start_spacing_us 0 10_000) (
        Prelude.◌>>◌ (require_int_range s.beacon_interval_us 1 max_uint64) (
          Prelude.◌>>◌ (require_int_range s.startup_beacons 1 max_uint32) (
            Prelude.◌>>◌ (require_int_range s.startup_beacon_spacing_us 0 max_uint64) (
              Prelude.◌>>◌ (Prelude.require (not (Prelude.is_empty s.beacon_addresses)) value_error)
                (Prelude.◌>>◌ (check_addresses s.beacon_addresses)
                  (Prelude.require (unique_addresses s.beacon_addresses) value_error))))))))

-- `value < self._last_clock_read_us` with a last value
abbrev pub moved_back : ℕ → Option ℕ → Bool
moved_back value none = false
moved_back value (some last) = ltb value last

module _ {W : Type 0} where
  abbrev pub on_base : {A : Type 0} → Action (Sender W) A → Action (UdpOutputV3 W) A
  on_base = on_part (λ (s : UdpOutputV3 W). s.base) (λ b s. record s { base = b })

  abbrev pub change_base : (Sender W → Sender W) → Action (UdpOutputV3 W) (Unit {0})
  change_base f = modify (λ s. record s { base = f s.base })

  -- What `open` sets before the first beacon.
  abbrev pub new_session : UdpOutputV3 W → UdpOutputV3 W
  new_session s = record s {
    needs_key_frame = true;
    next_beacon_sequence = 1;
    last_beacon_us = none;
    last_clock_read_us = none;
  }

  -- A value of the clock is refused out of range, or before the one that was read last.
  unfoldable pub check_clock : ℕ → Action (UdpOutputV3 W) ℕ
  check_clock value s =
      if leb value max_uint64 && not (moved_back value s.last_clock_read_us)
      then pure value (record s { last_clock_read_us = some value })
      else raise value_error s

  -- What a round of beacons leaves, from the time of its last one.
  abbrev pub after_round : ℕ → UdpOutputV3 W → UdpOutputV3 W
  after_round last s = record s {
    last_beacon_us = some last;
    next_beacon_sequence = (s.next_beacon_sequence + 1) % 2 ^ 32;
  }

  -- The apply time from the time now.
  unfoldable pub add_lead : ℕ → Action (UdpOutputV3 W) ℕ
  add_lead now s =
      if leb (now + s.lead_us) max_uint64 then pure (now + s.lead_us) s else raise value_error s

-- `UdpV3ClockBeacon(...).encode()`
unfoldable pub encode_beacon : ℕ → ℕ → Result (List ℕ)
encode_beacon sequence us =
    let b : UdpV3ClockBeacon = record {
      sequence = sequence;
      host_monotonic_us = us;
      message_type = 2;
    } in
    Prelude.◌>>◌ (Beacon.post_init b) (Beacon.encode b)

-- `self._last_beacon_us is None or now_us - self._last_beacon_us >= self._beacon_interval_us`
abbrev pub beacon_due : ℕ → Option ℕ → ℕ → Bool
beacon_due now none interval = true
beacon_due now (some last) interval = leb (last + interval) now

module _ {W : Type 0} (w : World W) where
  -- `_read_monotonic_us`
  unfoldable pub read_monotonic_us : Action (UdpOutputV3 W) ℕ
  read_monotonic_us = on_base (Transport.of_world w.monotonic_us) >>= check_clock

  unfoldable pub beacon_failed : Error → Action (Sender W) (Unit {0})
  beacon_failed e = do
    modify (λ s. set_error (beacon_error e) (drop_packet s))
    mode ← gets (λ (s : Sender W). s.mode)
    when (is_production mode) (modify (set_healthy false))
    raise e

  -- `_send_clock_beacon`
  unfoldable pub send_clock_beacon : ℕ → Address → ℕ → Action (Sender W) (Unit {0})
  send_clock_beacon us address sequence = do
    packet ← of_result (encode_beacon sequence us)
    attempt (send_datagram w (packet, address)) beacon_failed
    modify count_packet

  -- The time of a beacon: what the caller has read, for the first address, or a new reading.
  unfoldable pub beacon_time : Option ℕ → Action (UdpOutputV3 W) ℕ
  beacon_time (some us) = pure us
  beacon_time none = read_monotonic_us

  -- The loop of `_send_clock_beacon_round`, with the time of the beacon before.
  unfoldable pub send_beacons : ℕ → Option ℕ → ℕ → List Address → Action (UdpOutputV3 W) ℕ
  send_beacons sequence first last [] = pure last
  send_beacons sequence first last (address ∷ addresses) = do
    us ← beacon_time first
    on_base (send_clock_beacon us address sequence)
    send_beacons sequence none us addresses

  -- `_send_clock_beacon_round`
  unfoldable pub send_clock_beacon_round : Option ℕ → Action (UdpOutputV3 W) ℕ
  send_clock_beacon_round first = do
    s ← gets (λ (s : UdpOutputV3 W). s)
    last ← send_beacons s.next_beacon_sequence first 0 s.beacon_addresses
    modify (after_round last)
    pure last

  -- A round of beacons if one is due, with the time that has just been read: the time of the last
  -- beacon, or that time.
  unfoldable pub beacons_if_due : ℕ → Action (UdpOutputV3 W) ℕ
  beacons_if_due read s =
      (if beacon_due read s.last_beacon_us s.beacon_interval_us
          then send_clock_beacon_round (some read)
          else pure read)
        s

  -- `_scheduled_apply_at`
  unfoldable pub scheduled_apply_at : Action (UdpOutputV3 W) ℕ
  scheduled_apply_at = do read ← read_monotonic_us; now ← beacons_if_due read; add_lead now

  -- The loop of `open`: a round of beacons, and a pause between two rounds.
  unfoldable pub startup_rounds : ℕ → Action (UdpOutputV3 W) (Unit {0})
  startup_rounds zero = pure tt
  startup_rounds (suc n) = do
    last ← send_clock_beacon_round none
    spacing ← gets (λ (s : UdpOutputV3 W). s.startup_beacon_spacing_us)
    when (ltb 0 n) (on_base (Transport.of_world (w.sleep_us spacing)))
    startup_rounds n

  -- `_enable_broadcast`
  unfoldable pub enable_broadcast : Action (Sender W) (Unit {0})
  enable_broadcast = do
    s ← gets (λ (s : Sender W). s)
    when (is_production s.mode && s.has_socket) (Transport.of_world w.enable_broadcast)

  -- The beacons of `open`, and one pause more before the first frame.
  unfoldable pub send_startup : Action (UdpOutputV3 W) (Unit {0})
  send_startup = do
    on_base enable_broadcast
    s ← gets (λ (s : UdpOutputV3 W). s)
    startup_rounds s.startup_beacons
    when (not (s.startup_beacon_spacing_us == 0))
        (on_base (Transport.of_world (w.sleep_us s.startup_beacon_spacing_us)))

  unfoldable pub startup_failed : Error → Action (UdpOutputV3 W) (Unit {0})
  startup_failed e = do
    change_base (λ b. set_error (startup_error e) (set_healthy false b))
    on_base (close_socket w true)
    raise runtime_error

  unfoldable pub open_output : Action (UdpOutputV3 W) (Unit {0})
  open_output = do
    attempt (on_base (open_socket w)) (λ e. do on_base (close_socket w true); raise e)
    modify new_session
    s ← gets (λ (s : UdpOutputV3 W). s)
    when s.scheduled_apply (attempt send_startup startup_failed)

  unfoldable pub close_output : Action (UdpOutputV3 W) (Unit {0})
  close_output = on_base (close_socket w true)
