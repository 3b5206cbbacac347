-- ===== src/UdpOutputV3/Beacons.antt =====
-- udp_output.py: the datagrams of the clock beacons, which UdpOutputV3 sends before a scheduled frame.
use light_belt.Prelude.{
  ℕ, ◌+◌, ◌%◌, ◌^◌, ◌≤◌, ◌≡◌, ◌∙◌, ◌⊎◌, refl, sym, ap, Option, none, some, List, [], ◌∷◌, Error,
  Result, ok, err, ok-injective, Result-cases, >>=-eq-ok, Bool-cases, inl, inr, leb, ◌&&◌, not,
}
use light_belt.Prelude.Actions.{Action, modify, handle, resume, returned, Ensures}
use light_belt.Wire.Pixels.{max_uint64}
use light_belt.Frames.{Address}
use light_belt.UdpV3.Beacon.{UdpV3ClockBeacon, post_init, encode, decode}
use light_belt.UdpV3.Beacon.Codec.{beacon_encode_total, beacon_decode_iff}
use light_belt.Transport.{
  Mode, production, memory, fake, World, Sender, count_packet, send_datagram,
}
use light_belt.UdpOutputV3.{
  UdpOutputV3, check_clock, moved_back, read_monotonic_us, encode_beacon, beacon_failed,
  send_clock_beacon, beacon_time,
}
use light_belt.UdpOutputV3.Reading.{Returns}

-- The beacon of a round, with the time that it tells.
abbrev pub told : ℕ → ℕ → UdpV3ClockBeacon
told sequence us = record { sequence = sequence; host_monotonic_us = us; message_type = 2 }

module _ {W : Type 0} where
  -- The clock has been read, and nothing else of the output has changed.
  abbrev pub OnlyRead : UdpOutputV3 W → ℕ → UdpOutputV3 W → Type 0
  OnlyRead s us t =
      t ≡ record s { base = record s.base { world = t.base.world }; last_clock_read_us = some us }

-- For each address in turn the clock stands at a time, a datagram that a node decodes as the beacon
-- of that time is handed to `_send_datagram`, and is counted. That is all that has happened.
abbrev pub SentTo :
    {W : Type 0} → World W → ℕ → List Address → UdpOutputV3 W → UdpOutputV3 W → Type 0
SentTo w sequence [] s t = t ≡ s
SentTo {W} w sequence (a ∷ rest) s t =
    (us : ℕ) × (bytes : List ℕ) × (read : UdpOutputV3 W) × (base : Sender W) × OnlyRead s us read
    × (decode bytes ≡ some (told sequence us))
    × (send_datagram w (bytes, a) read.base ≡ (ok tt, base))
    × SentTo w sequence rest (record read { base = count_packet base }) t

-- A round of beacons is due at a time: there was none yet, or the last one is as old as the interval.
abbrev pub IsDue : {W : Type 0} → ℕ → UdpOutputV3 W → Type 0
IsDue now s =
    (s.last_beacon_us ≡ none)
    ⊎ ((b : ℕ) × (s.last_beacon_us ≡ some b) × (b + s.beacon_interval_us ≤ now))

-- The clock is read; then, if a round of beacons is due, each address is sent one and the round is
-- noted; else nothing more happens.
pub record Announced {W : Type 0} (w : World W) (s t : UdpOutputV3 W) : Type 0 where
  pub now : ℕ
  pub read : UdpOutputV3 W
  pub only_read : OnlyRead s now read
  pub round :
      ((¬ IsDue now read) × (t ≡ read))
      ⊎ (IsDue now read
          × ((done : UdpOutputV3 W) × (last : ℕ) × SentTo w read.next_beacon_sequence
                read.beacon_addresses read done
              × (t ≡ record done {
                last_beacon_us = some last;
                next_beacon_sequence = (done.next_beacon_sequence + 1) % 2 ^ 32;
              })))

module _ {W : Type 0} (w : World W) where
  check_clock-OnlyRead :
      (value : ℕ) (s : UdpOutputV3 W) (v : W)
      → Returns (OnlyRead s) (check_clock value (record s { base = record s.base { world = v } }))
  unfolding check_clock Ensures
  check_clock-OnlyRead value s v =
      elim (Bool-cases (leb value max_uint64 && not (moved_back value s.last_clock_read_us))) [
        | inl p ↦ rw p refl
        | inr p ↦ rw p tt
      ]

  pub read_monotonic_us-OnlyRead :
      (s : UdpOutputV3 W) → Returns (OnlyRead s) (read_monotonic_us w s)
  unfolding read_monotonic_us Ensures
  read_monotonic_us-OnlyRead s = after_reading (w.monotonic_us s.base.world)
    where
      after_reading :
          (r : Result ℕ × W)
          → Returns (OnlyRead s) (
              resume check_clock (
                returned
                  (λ b. record s { base = b })
                  (returned (λ v. record s.base { world = v }) r)))
      after_reading (err e, v) = tt
      after_reading (ok value, v) = check_clock-OnlyRead value s v

  pub beacon_time-OnlyRead :
      (first : Option ℕ) (s : UdpOutputV3 W)
      → ((v : ℕ) → first ≡ some v → s.last_clock_read_us ≡ some v)
      → Returns (OnlyRead s) (beacon_time w first s)
  unfolding beacon_time Ensures
  beacon_time-OnlyRead (some v) s h =
      ap (λ (clock : Option ℕ). record s { last_clock_read_us = clock }) (h v refl)
  beacon_time-OnlyRead none s h = read_monotonic_us-OnlyRead s

  encode_beacon-told :
      (sequence us : ℕ) (bytes : List ℕ)
      → encode_beacon sequence us ≡ ok bytes
      → decode bytes ≡ some (told sequence us)
  unfolding encode_beacon
  encode_beacon-told sequence us bytes e =
      let b = told sequence us in
      let (_, built, encoded) = >>=-eq-ok (post_init b) (λ done. encode b) e in
      let (made, encoded', _, are) = beacon_encode_total b built in
      let same : made ≡ bytes = ok-injective (sym encoded' ∙ encoded) in
      (beacon_decode_iff bytes b (rw (← same) are)).1 (built, encoded)

  -- The handler raises in every mode.
  beacon_failed-raises :
      (P : Unit {0} → Sender W → Type 0) (k : Unit {0} → Action (Sender W) (Unit {0})) (x : Error)
      (b : Sender W) (m : Mode)
      → b.mode ≡ m
      → Ensures P (λ e t. Unit {0}) (resume k (beacon_failed w x b))
  unfolding beacon_failed Ensures
  beacon_failed-raises P k x b production m = rw m tt
  beacon_failed-raises P k x b memory m = rw m tt
  beacon_failed-raises P k x b fake m = rw m tt

  -- A beacon that is sent without an exception was handed to `_send_datagram`, and counted.
  unfoldable pub Handed : ℕ → Address → ℕ → Sender W → Unit {0} → Sender W → Type 0
  Handed us a sequence b done t =
      (bytes : List ℕ) × (base : Sender W) × (decode bytes ≡ some (told sequence us))
      × (send_datagram w (bytes, a) b ≡ (ok tt, base))
      × (t ≡ count_packet base)

  pub send_clock_beacon-Handed :
      (us : ℕ) (a : Address) (sequence : ℕ) (b : Sender W)
      → Ensures (Handed us a sequence b) (λ e t. Unit {0}) (send_clock_beacon w us a sequence b)
  unfolding send_clock_beacon Ensures Handed
  send_clock_beacon-Handed us a sequence b = elim (Result-cases (encode_beacon sequence us)) [
    | inl (bytes, e) ↦ rw e (after bytes e (send_datagram w (bytes, a) b) refl)
    | inr (x, e) ↦ rw e tt
  ]
    where
      after :
          (bytes : List ℕ)
          → encode_beacon sequence us ≡ ok bytes
          → (r : Result (Unit {0}) × Sender W) → send_datagram w (bytes, a) b ≡ r
          → Ensures
              (Handed us a sequence b)
              (λ e t. Unit {0})
              (resume (λ done. modify count_packet) (handle (beacon_failed w) r))
      after bytes e (ok done, base) h =
          (bytes, base, encode_beacon-told sequence us bytes e, h, refl)
      after bytes e (err x, base) h =
          beacon_failed-raises (Handed us a sequence b) (λ done. modify count_packet) x base
            base.mode refl
