-- ===== src/UdpOutputV3/Announcing.antt =====
-- udp_output.py: a scheduled UdpOutputV3 sends a round of beacons when one is due.
use light_belt.Prelude.{
  ℕ, ◌+◌, ◌≡◌, ◌∙◌, refl, ap, false, true, Option, none, some, List, [], ◌∷◌, arith, Result, ok,
  err, Bool-cases, inl, inr, leb,
}
use light_belt.Prelude.Actions.{
  pure, modify, ◌>>◌, ◌>>=◌, resume, returned, Ensures, Ensures-bind, Ensures-weaken,
}
use light_belt.Wire.Pixels.{max_uint64}
use light_belt.Frames.{Address}
use light_belt.Transport.{World, Sender, count_packet}
use light_belt.UdpOutputV3.{
  UdpOutputV3, on_base, read_monotonic_us, send_clock_beacon, beacon_time, send_beacons,
  after_round, send_clock_beacon_round, beacon_due, beacons_if_due, add_lead, scheduled_apply_at,
}
use light_belt.UdpOutputV3.Reading.{Returns}
use light_belt.UdpOutputV3.Beacons.{
  OnlyRead, SentTo, IsDue, Announced, Handed, read_monotonic_us-OnlyRead, beacon_time-OnlyRead,
  send_clock_beacon-Handed,
}

module _ {W : Type 0} (w : World W) where
  send_beacons-SentTo :
      (sequence : ℕ) (first : Option ℕ) (last : ℕ) (addresses : List Address) (s : UdpOutputV3 W)
      → ((v : ℕ) → first ≡ some v → s.last_clock_read_us ≡ some v)
      → Returns
          (λ v t. SentTo w sequence addresses s t)
          (send_beacons w sequence first last addresses s)
  unfolding send_beacons Ensures Handed
  send_beacons-SentTo sequence first last [] s h = refl
  send_beacons-SentTo sequence first last (a ∷ rest) s h =
      Ensures-bind (OnlyRead s) (λ e t. Unit {0}) (λ v t. SentTo w sequence (a ∷ rest) s t)
        (λ us. on_base (send_clock_beacon w us a sequence) >> send_beacons w sequence none us rest)
        (beacon_time w first s) (beacon_time-OnlyRead w first s h)
        (λ us read only.
          later us read only
            (λ next. send_beacons-SentTo sequence none us rest next (λ v e. ground (arith, e)))
            (send_clock_beacon w us a sequence read.base)
            (send_clock_beacon-Handed w us a sequence read.base))
    where
      later :
          (us : ℕ) (read : UdpOutputV3 W)
          → OnlyRead s us read
          → ((next : UdpOutputV3 W)
              → Returns
                  (λ v t. SentTo w sequence rest next t)
                  (send_beacons w sequence none us rest next))
          → (r : Result (Unit {0}) × Sender W)
          → Ensures (Handed w us a sequence read.base) (λ e t. Unit {0}) r
          → Returns
              (λ v t. SentTo w sequence (a ∷ rest) s t)
              (resume
                (λ done. send_beacons w sequence none us rest)
                (returned (λ b. record read { base = b }) r))
      later us read only more (err e, b) handed = tt
      later us read only more (ok done, b) (bytes, base, tells, hand, counted) =
          let next : UdpOutputV3 W = record read { base = count_packet base } in
          rw counted (
            Ensures-weaken (λ v t. SentTo w sequence rest next t) (λ e t. Unit {0})
              (λ v t. SentTo w sequence (a ∷ rest) s t) (λ e t. Unit {0})
              (send_beacons w sequence none us rest next) (more next)
              (λ v t sent. (us, bytes, read, base, only, tells, hand, sent)) (λ e t h. tt))

  round-SentTo :
      (now : ℕ) (s : UdpOutputV3 W)
      → s.last_clock_read_us ≡ some now
      → Returns
          (λ last t.
            (done : UdpOutputV3 W) × SentTo w s.next_beacon_sequence s.beacon_addresses s done
            × (t ≡ after_round last done))
          (send_clock_beacon_round w (some now) s)
  unfolding send_clock_beacon_round Ensures
  round-SentTo now s clock =
      Ensures-bind (λ last t. SentTo w s.next_beacon_sequence s.beacon_addresses s t)
        (λ e t. Unit {0})
        (λ last t.
          (done : UdpOutputV3 W) × SentTo w s.next_beacon_sequence s.beacon_addresses s done
          × (t ≡ after_round last done))
        (λ last. modify (after_round last) >> pure last)
        (send_beacons w s.next_beacon_sequence (some now) 0 s.beacon_addresses s)
        (send_beacons-SentTo s.next_beacon_sequence (some now) 0 s.beacon_addresses s
          (λ v e. clock ∙ e))
        (λ last done sent. (done, sent, refl))

  due→IsDue :
      (now : ℕ) (s : UdpOutputV3 W) (last : Option ℕ)
      → s.last_beacon_us ≡ last
      → beacon_due now last s.beacon_interval_us ≡ true
      → IsDue now s
  due→IsDue now s none e h = inl e
  due→IsDue now s (some b) e h = inr (b, e, ground arith)

  not_due :
      (now : ℕ) (s : UdpOutputV3 W) (last : Option ℕ)
      → s.last_beacon_us ≡ last
      → beacon_due now last s.beacon_interval_us ≡ false
      → ¬ IsDue now s
  not_due now s none e h d = ground (arith, h)
  not_due now s (some b) e h (inl d) = ground (arith, e, d)
  not_due now s (some b) e h (inr (c, d, late)) = ground (arith, e, d, late, h)

  beacons_if_due-Announced :
      (now : ℕ) (s read : UdpOutputV3 W)
      → OnlyRead s now read
      → Returns (λ v t. Announced w s t) (beacons_if_due w now read)
  unfolding beacons_if_due Ensures
  beacons_if_due-Announced now s read only =
      elim (Bool-cases (beacon_due now read.last_beacon_us read.beacon_interval_us)) [
        | inl p ↦ rw p (
            Ensures-weaken
              (λ last t.
                (done : UdpOutputV3 W) × SentTo w read.next_beacon_sequence read.beacon_addresses
                  read done
                × (t ≡ after_round last done))
              (λ e t. Unit {0}) (λ v t. Announced w s t) (λ e t. Unit {0})
              (send_clock_beacon_round w (some now) read)
              (round-SentTo now read (ap (λ (u : UdpOutputV3 W). u.last_clock_read_us) only))
              (λ last t h. record {
                now = now;
                read = read;
                only_read = only;
                round = inr (due→IsDue now read read.last_beacon_us refl p, (h.0, last, h.1, h.2));
              })
              (λ e t h. tt))
        | inr p ↦ rw p (record {
          now = now;
          read = read;
          only_read = only;
          round = inl (not_due now read read.last_beacon_us refl p, refl);
        })
      ]

  add_lead-keeps :
      (now : ℕ) (s t : UdpOutputV3 W)
      → Announced w s t
      → Returns (λ v u. Announced w s u) (add_lead now t)
  unfolding add_lead Ensures
  add_lead-keeps now s t h = elim (Bool-cases (leb (now + t.lead_us) max_uint64)) [
    | inl p ↦ rw p h
    | inr p ↦ rw p tt
  ]

  pub scheduled_apply_at-Announced :
      (s : UdpOutputV3 W) → Returns (λ time t. Announced w s t) (scheduled_apply_at w s)
  unfolding scheduled_apply_at
  scheduled_apply_at-Announced s =
      Ensures-bind (OnlyRead s) (λ e t. Unit {0}) (λ v t. Announced w s t)
        (λ read. beacons_if_due w read >>= add_lead) (read_monotonic_us w s)
        (read_monotonic_us-OnlyRead w s)
        (λ now read only.
          Ensures-bind (λ v t. Announced w s t) (λ e t. Unit {0}) (λ v t. Announced w s t) add_lead
            (beacons_if_due w now read) (beacons_if_due-Announced now s read only)
            (λ v t h. add_lead-keeps v s t h))
