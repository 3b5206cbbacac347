-- ===== src/UdpOutputV3/Reading.antt =====
-- udp_output.py: what UdpOutputV3 reads of its clock, for its beacons and before a frame.
use light_belt.Prelude.{
  ℕ, ◌≤◌, ◌≡◌, ◌∙◌, refl, false, Option, none, some, List, [], ◌∷◌, arith, Result, ok, err,
  Bool-cases, inl, inr, leb, ◌&&◌, not,
}
use light_belt.Prelude.Actions.{
  Action, ◌>>◌, resume, returned, Ensures, Ensures-bind, Ensures-weaken,
}
use light_belt.Wire.Pixels.{max_uint64}
use light_belt.Frames.{Address}
use light_belt.Transport.{World, Sender}
use light_belt.UdpOutputV3.{
  UdpOutputV3, on_base, check_clock, send_clock_beacon, read_monotonic_us, moved_back, beacon_time,
  send_beacons,
}

-- The clock has not gone back, as far as it has been read.
abbrev pub NotBefore : Option ℕ → ℕ → Type 0
NotBefore none v = Unit {0}
NotBefore (some last) v = last ≤ v

moved_back-NotBefore :
    (value : ℕ) (last : Option ℕ) → moved_back value last ≡ false → NotBefore last value
moved_back-NotBefore value none h = tt
moved_back-NotBefore value (some last) h = ground arith

same_time : (o : Option ℕ) (v : ℕ) → o ≡ some v → NotBefore o v
same_time none v h = tt
same_time (some x) v h = ground (arith, h)

not_before :
    (o p : Option ℕ) (v v' : ℕ) → NotBefore o v → p ≡ some v → NotBefore p v' → NotBefore o v'
not_before none p v v' a h b = tt
not_before (some x) none v v' a h b = ground (arith, h)
not_before (some x) (some y) v v' a h b = ground (arith, h, a, b)

module _ {W : Type 0} where
  -- What a call leaves of the settings that a schedule stands on.
  pub record Same (s t : UdpOutputV3 W) : Type 0 where
    pub lead_us : t.lead_us ≡ s.lead_us
    pub interval : t.beacon_interval_us ≡ s.beacon_interval_us
    pub addresses : t.beacon_addresses ≡ s.beacon_addresses

  Same-refl : (s : UdpOutputV3 W) → Same s s
  Same-refl s = record { lead_us = refl; interval = refl; addresses = refl }

  Same-trans : (s t u : UdpOutputV3 W) → Same s t → Same t u → Same s u
  Same-trans s t u a b = record {
    lead_us = b.lead_us ∙ a.lead_us;
    interval = b.interval ∙ a.interval;
    addresses = b.addresses ∙ a.addresses;
  }

  -- `value` is the time of the clock as last read, and not before what was read until then.
  pub record ReadAt (s : UdpOutputV3 W) (value : ℕ) (t : UdpOutputV3 W) : Type 0 where
    pub same : Same s t
    pub clock : t.last_clock_read_us ≡ some value
    pub later : NotBefore s.last_clock_read_us value

  pub ReadAt-refl : (s : UdpOutputV3 W) (v : ℕ) → s.last_clock_read_us ≡ some v → ReadAt s v s
  ReadAt-refl s v h = record {
    same = Same-refl s;
    clock = h;
    later = same_time s.last_clock_read_us v h;
  }

  pub ReadAt-trans :
      (s t u : UdpOutputV3 W) (v v' : ℕ) → ReadAt s v t → ReadAt t v' u → ReadAt s v' u
  ReadAt-trans s t u v v' a b = record {
    same = Same-trans s t u a.same b.same;
    clock = b.clock;
    later = not_before s.last_clock_read_us t.last_clock_read_us v v' a.later a.clock b.later;
  }

  abbrev pub Returns :
      {A : Type 0} → (A → UdpOutputV3 W → Type 0) → Result A × UdpOutputV3 W → Type 0
  Returns P r = Ensures P (λ e t. Unit {0}) r

  check_clock-Returns :
      (value : ℕ) (s : UdpOutputV3 W) (b : Sender W)
      → Returns
          (λ v t. ReadAt s v t × (t.last_beacon_us ≡ s.last_beacon_us))
          (check_clock value (record s { base = b }))
  unfolding check_clock Ensures
  check_clock-Returns value s b =
      elim (Bool-cases (leb value max_uint64 && not (moved_back value s.last_clock_read_us))) [
        | inl p ↦ rw p (
          record {
            same = record { lead_us = refl; interval = refl; addresses = refl };
            clock = refl;
            later = moved_back-NotBefore value s.last_clock_read_us (ground arith);
          },
          refl,
        )
        | inr p ↦ rw p tt
      ]

  -- The time with which the loop begins: that of the beacon before, or the one to use first.
  unfoldable pub Begins : Option ℕ → ℕ → List Address → UdpOutputV3 W → Type 0
  Begins first last [] s = s.last_clock_read_us ≡ some last
  Begins first last (a ∷ rest) s = (v : ℕ) → first ≡ some v → s.last_clock_read_us ≡ some v

module _ {W : Type 0} (w : World W) where
  -- A reading keeps also the time of the last beacon.
  pub read_monotonic_us-Returns :
      (s : UdpOutputV3 W)
      → Returns
          (λ v t. ReadAt s v t × (t.last_beacon_us ≡ s.last_beacon_us))
          (read_monotonic_us w s)
  unfolding read_monotonic_us Ensures
  read_monotonic_us-Returns s = after_reading (w.monotonic_us s.base.world)
    where
      after_reading :
          (r : Result ℕ × W)
          → Returns
              (λ v t. ReadAt s v t × (t.last_beacon_us ≡ s.last_beacon_us))
              (resume check_clock (
                returned
                  (λ b. record s { base = b })
                  (returned (λ v. record s.base { world = v }) r)))
      after_reading (err e, v) = tt
      after_reading (ok value, v) = check_clock-Returns value s (record s.base { world = v })

  -- The time of a beacon is the time of the clock as last read.
  beacon_time-Returns :
      (first : Option ℕ) (s : UdpOutputV3 W)
      → ((v : ℕ) → first ≡ some v → s.last_clock_read_us ≡ some v)
      → Returns (ReadAt s) (beacon_time w first s)
  unfolding beacon_time Ensures
  beacon_time-Returns (some v) s h = ReadAt-refl s v (h v refl)
  beacon_time-Returns none s h =
      Ensures-weaken (λ v t. ReadAt s v t × (t.last_beacon_us ≡ s.last_beacon_us)) (λ e t. Unit {0})
        (ReadAt s) (λ e t. Unit {0}) (read_monotonic_us w s) (read_monotonic_us-Returns s)
        (λ v t r. r.0) (λ e t h. tt)

  -- What is sent between two readings changes nothing that they look at.
  after_base :
      {A : Type 0} (s t : UdpOutputV3 W) (v : ℕ) (P : A → UdpOutputV3 W → Type 0)
      (k : Action (UdpOutputV3 W) A)
      → ReadAt s v t
      → ((u : UdpOutputV3 W) → ReadAt s v u → Returns P (k u))
      → (r : Result (Unit {0}) × Sender W)
      → Returns P (resume (λ done. k) (returned (λ b. record t { base = b }) r))
  unfolding Ensures
  after_base s t v P k h later (ok done, b) =
      later (record t { base = b })
        (record {
          same = record {
            lead_us = h.same.lead_us;
            interval = h.same.interval;
            addresses = h.same.addresses;
          };
          clock = h.clock;
          later = h.later;
        })
  after_base s t v P k h later (err e, b) = tt

  pub send_beacons-Returns :
      (n : ℕ) (first : Option ℕ) (last : ℕ) (addresses : List Address) (s : UdpOutputV3 W)
      → Begins first last addresses s
      → Returns (ReadAt s) (send_beacons w n first last addresses s)
  unfolding send_beacons Ensures Begins
  send_beacons-Returns n first last [] s b = ReadAt-refl s last b
  send_beacons-Returns n first last (a ∷ rest) s b =
      Ensures-bind (ReadAt s) (λ e t. Unit {0}) (ReadAt s)
        (λ us. on_base (send_clock_beacon w us a n) >> send_beacons w n none us rest)
        (beacon_time w first s) (beacon_time-Returns first s b)
        (λ us t h.
          after_base s t us (ReadAt s) (send_beacons w n none us rest) h
            (λ u k.
              Ensures-weaken (ReadAt u) (λ e t. Unit {0}) (ReadAt s) (λ e t. Unit {0})
                (send_beacons w n none us rest u)
                (send_beacons-Returns n none us rest u (begins us u k.clock rest))
                (λ v x l. ReadAt-trans s u x us v k l) (λ e x l. tt))
            (send_clock_beacon w us a n t.base))
    where
      begins :
          (us : ℕ) (u : UdpOutputV3 W)
          → u.last_clock_read_us ≡ some us
          → (rest : List Address) → Begins none us rest u
      begins us u c [] = c
      begins us u c (x ∷ xs) = λ v h. ground (arith, h)
