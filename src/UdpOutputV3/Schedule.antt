-- ===== src/UdpOutputV3/Schedule.antt =====
-- udp_output.py: the time at which a scheduled UdpOutputV3 asks the nodes to show a frame.
use light_belt.Prelude.{
  subst, sym, ℕ, ◌+◌, ◌≤◌, ◌<◌, ◌≡◌, ◌∙◌, refl, false, Option, none, some, List, [], ◌∷◌, arith, ok,
  Bool-cases, inl, inr, leb, is_empty,
}
use light_belt.Prelude.Actions.{pure, modify, ◌>>◌, ◌>>=◌, Ensures, Ensures-bind}
use light_belt.Wire.Pixels.{max_uint64}
use light_belt.Frames.{Address}
use light_belt.Transport.{World}
use light_belt.UdpOutputV3.{
  UdpOutputV3, read_monotonic_us, send_beacons, after_round, send_clock_beacon_round, beacon_due,
  beacons_if_due, add_lead, scheduled_apply_at,
}
use light_belt.UdpOutputV3.Beacons.{Announced}
use light_belt.UdpOutputV3.Announcing.{scheduled_apply_at-Announced}
use light_belt.UdpOutputV3.Reading.{
  NotBefore, ReadAt, ReadAt-refl, ReadAt-trans, Returns, read_monotonic_us-Returns, Begins,
  send_beacons-Returns,
}

module _ {W : Type 0} where
  -- The last round of beacons is noted at less than the interval before the time.
  record Fresh (now : ℕ) (t : UdpOutputV3 W) : Type 0 where
    pub beacon : ℕ
    pub sent : t.last_beacon_us ≡ some beacon
    pub recent : now < beacon + t.beacon_interval_us

  -- A frame's apply time, and the clock and the beacons that it is read from.
  pub record Covered (s : UdpOutputV3 W) (time : ℕ) (t : UdpOutputV3 W) : Type 0 where
    pub now : ℕ
    pub clock : t.last_clock_read_us ≡ some now
    pub later : NotBefore s.last_clock_read_us now
    pub time_after : time ≡ now + s.lead_us
    pub fits : time ≤ max_uint64
    pub last_beacon : ℕ
    pub beacon : t.last_beacon_us ≡ some last_beacon
    pub fresh : now < last_beacon + s.beacon_interval_us

  add_lead-Returns :
      (now : ℕ) (s t : UdpOutputV3 W)
      → ReadAt s now t
      → Fresh now t
      → Returns (Covered s) (add_lead now t)
  unfolding add_lead Ensures
  add_lead-Returns now s t h f = elim (Bool-cases (leb (now + t.lead_us) max_uint64)) [
    | inl p ↦ rw p (record {
      now = now;
      clock = h.clock;
      later = h.later;
      time_after = rw h.same.lead_us refl;
      fits = ground (arith, p);
      last_beacon = f.beacon;
      beacon = f.sent;
      fresh = rw⁻¹ h.same.interval f.recent;
    })
    | inr p ↦ rw p tt
  ]

module _ {W : Type 0} (w : World W) where
  send_clock_beacon_round-Returns :
      (read : ℕ) (s : UdpOutputV3 W)
      → is_empty s.beacon_addresses ≡ false
      → s.last_clock_read_us ≡ some read
      → 1 ≤ s.beacon_interval_us
      → Returns (λ v t. ReadAt s v t × Fresh v t) (send_clock_beacon_round w (some read) s)
  unfolding send_clock_beacon_round Ensures Begins
  send_clock_beacon_round-Returns read s some_address clock interval =
      Ensures-bind (ReadAt s) (λ e t. Unit {0}) (λ v t. ReadAt s v t × Fresh v t)
        (λ last. modify (after_round last) >> pure last)
        (send_beacons w s.next_beacon_sequence (some read) 0 s.beacon_addresses s)
        (send_beacons-Returns w s.next_beacon_sequence (some read) 0 s.beacon_addresses s
          (begins s.beacon_addresses some_address))
        (λ v t h. (
          record {
            same = record {
              lead_us = h.same.lead_us;
              interval = h.same.interval;
              addresses = h.same.addresses;
            };
            clock = h.clock;
            later = h.later;
          },
          record { beacon = v; sent = refl; recent = rw h.same.interval (ground arith) },
        ))
    where
      begins : (list : List Address) → is_empty list ≡ false → Begins (some read) 0 list s
      begins [] h = ground (arith, h)
      begins (a ∷ rest) h = λ v e. clock ∙ e

  beacons_if_due-Returns :
      (read : ℕ) (s : UdpOutputV3 W)
      → is_empty s.beacon_addresses ≡ false
      → s.last_clock_read_us ≡ some read
      → 1 ≤ s.beacon_interval_us
      → Returns (λ v t. ReadAt s v t × Fresh v t) (beacons_if_due w read s)
  unfolding beacons_if_due Ensures
  beacons_if_due-Returns read s some_address clock interval =
      elim (Bool-cases (beacon_due read s.last_beacon_us s.beacon_interval_us)) [
        | inl p ↦ rw p (send_clock_beacon_round-Returns read s some_address clock interval)
        | inr p ↦ rw p (ReadAt-refl s read clock, still_fresh s.last_beacon_us p refl)
      ]
    where
      still_fresh :
          (last : Option ℕ)
          → beacon_due read last s.beacon_interval_us ≡ false
          → last ≡ s.last_beacon_us
          → Fresh read s
      still_fresh none p e = ground (arith, p)
      still_fresh (some b) p e = record { beacon = b; sent = sym e; recent = ground (arith, p) }

  scheduled_apply_at-Returns :
      (s : UdpOutputV3 W)
      → is_empty s.beacon_addresses ≡ false
      → 1 ≤ s.beacon_interval_us
      → Returns (Covered s) (scheduled_apply_at w s)
  unfolding scheduled_apply_at
  scheduled_apply_at-Returns s some_address interval =
      Ensures-bind (λ v t. ReadAt s v t × (t.last_beacon_us ≡ s.last_beacon_us)) (λ e t. Unit {0})
        (Covered s) (λ read. beacons_if_due w read >>= add_lead) (read_monotonic_us w s)
        (read_monotonic_us-Returns w s)
        (λ read t h.
          Ensures-bind (λ v u. ReadAt t v u × Fresh v u) (λ e t. Unit {0}) (Covered s) add_lead
            (beacons_if_due w read t)
            (beacons_if_due-Returns read t (rw h.0.same.addresses some_address) h.0.clock
              (rw h.0.same.interval interval))
            (λ now u k. add_lead-Returns now s u (ReadAt-trans s t u read now h.0 k.0) k.1))

  -- A time that is found for a frame is the time of the clock, as read last, and the lead, and fits
  -- 64 bits; the clock has not gone back; and the last round of beacons is noted, at a time less than
  -- the interval before that. If the noted round was as old as the interval when the call read the
  -- clock, or there was none, then the call has handed `_send_datagram` one datagram for each address in
  -- turn, which decodes as the beacon of the round's number and of the time read just before, and else
  -- it has only read the clock. The settings are as `__init__` accepts them: there is an address for
  -- beacons, and the interval is positive.
  pub scheduled_apply_at-Covered :
      (s t : UdpOutputV3 W) (time : ℕ)
      → is_empty s.beacon_addresses ≡ false
      → 1 ≤ s.beacon_interval_us
      → scheduled_apply_at w s ≡ (ok time, t)
      → Covered s time t × Announced w s t
  unfolding Ensures
  scheduled_apply_at-Covered s t time some_address interval e = (
    subst (Returns (Covered s)) e (scheduled_apply_at-Returns s some_address interval),
    subst (Returns (λ v t. Announced w s t)) e (scheduled_apply_at-Announced w s),
  )
