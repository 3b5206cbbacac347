-- ===== src/UdpOutputV3/Accounting.antt =====
-- udp_output.py: what `flush_latest` of UdpOutputV3 counts. The parts before the sending count no frame.
use light_belt.Prelude.{
  ℕ, ◌≡◌, ◌∙◌, refl, ap, true, false, Option, none, some, List, [], ◌∷◌, arith, Result, ok, err,
  value_error, require, not, Result-cases, inl, inr, if◌then◌else◌, is_some,
}
use light_belt.Prelude.Actions.{Action, pure, modify, of_result, ◌>>◌, ◌>>=◌, handle, resume}
use light_belt.Frames.{Address, PhysicalFrame}
use light_belt.Transport.{World, Sender, count_packet, send_datagram}
use light_belt.Transport.Effects.{Quiet, send_datagram-Quiet}
use light_belt.Transport.Rounds.{frames_counted}
use light_belt.UdpOutputV3.{
  check_clock, UdpOutputV3, on_base, encode_beacon, beacon_failed, send_clock_beacon,
  read_monotonic_us, beacon_time, send_beacons, send_clock_beacon_round, scheduled_apply_at,
  after_round, beacon_due, beacons_if_due, add_lead,
}
use light_belt.UdpOutputV3.Flush.{prepared, apply_time, check_metadata, prepare}

module _ {W : Type 0} where
  -- A part of the flush that leaves the frame to be counted.
  pub record Level (s t : Sender W) : Type 0 where
    pub mode : t.mode ≡ s.mode
    pub queue : t.queue ≡ s.queue
    pub frames : frames_counted t.health ≡ frames_counted s.health

  pub Level-refl : (s : Sender W) → Level s s
  Level-refl s = record { mode = refl; queue = refl; frames = refl }

  pub Level-trans : (s t u : Sender W) → Level s t → Level t u → Level s u
  Level-trans s t u l k = record {
    mode = k.mode ∙ l.mode;
    queue = k.queue ∙ l.queue;
    frames = k.frames ∙ l.frames;
  }

  pub Quiet-Level : (s t : Sender W) → Quiet s t → Level s t
  Quiet-Level s t q = record { mode = q.mode; queue = q.queue; frames = ap frames_counted q.health }

  -- A part of the whole output that leaves the frame to be counted, also where it raises.
  abbrev pub Keeps : {A : Type 0} → UdpOutputV3 W → Result A × UdpOutputV3 W → Type 0
  Keeps s r = Level s.base r.1.base

  Keeps-bind :
      {A B : Type 0} (s : UdpOutputV3 W) (k : A → Action (UdpOutputV3 W) B)
      (r : Result A × UdpOutputV3 W)
      → Keeps s r
      → ((a : A) (t : UdpOutputV3 W) → Keeps t (k a t))
      → Keeps s (resume k r)
  Keeps-bind s k (ok a, t) l h = Level-trans s.base t.base (k a t).1.base l (h a t)
  Keeps-bind s k (err e, t) l h = l

  beacon_end :
      (w : World W) (s : Sender W) (r : Result (Unit {0}) × Sender W)
      → Level s r.1
      → Level s (resume (λ done. modify count_packet) (handle (beacon_failed w) r)).1
  unfolding beacon_failed
  beacon_end w s (ok a, t) l = record { mode = l.mode; queue = l.queue; frames = l.frames }
  beacon_end w s (err e, t) l = record {
    mode = ground (arith, l.mode);
    queue = ground (arith, l.queue);
    frames = ground (arith, l.frames);
  }

module _ {W : Type 0} (w : World W) where
  send_clock_beacon-Level :
      (us : ℕ) (a : Address) (n : ℕ) (s : Sender W) → Level s (send_clock_beacon w us a n s).1
  unfolding send_clock_beacon
  send_clock_beacon-Level us a n s = elim (Result-cases (encode_beacon n us)) [
    | inl (packet, e) ↦ rw e (
        beacon_end w s (send_datagram w (packet, a) s)
          (Quiet-Level s (send_datagram w (packet, a) s).1 (send_datagram-Quiet w (packet, a) s)))
    | inr (x, e) ↦ rw e (Level-refl s)
  ]

  read_monotonic_us-Keeps : (s : UdpOutputV3 W) → Keeps s (read_monotonic_us w s)
  unfolding read_monotonic_us check_clock
  read_monotonic_us-Keeps s = ground arith

  beacon_time-Keeps : (first : Option ℕ) (s : UdpOutputV3 W) → Keeps s (beacon_time w first s)
  unfolding beacon_time
  beacon_time-Keeps none s = read_monotonic_us-Keeps s
  beacon_time-Keeps (some t) s = Level-refl s.base

  send_beacons-Keeps :
      (n : ℕ) (first : Option ℕ) (last : ℕ) (addresses : List Address) (s : UdpOutputV3 W)
      → Keeps s (send_beacons w n first last addresses s)
  unfolding send_beacons
  send_beacons-Keeps n first last [] s = Level-refl s.base
  send_beacons-Keeps n first last (a ∷ rest) s =
      Keeps-bind s (λ us. on_base (send_clock_beacon w us a n) >> send_beacons w n none us rest)
        (beacon_time w first s) (beacon_time-Keeps first s)
        (λ us t.
          Keeps-bind t (λ sent. send_beacons w n none us rest)
            (on_base (send_clock_beacon w us a n) t) (send_clock_beacon-Level us a n t.base)
            (λ sent u. send_beacons-Keeps n none us rest u))

  send_clock_beacon_round-Keeps :
      (first : Option ℕ) (s : UdpOutputV3 W) → Keeps s (send_clock_beacon_round w first s)
  unfolding send_clock_beacon_round
  send_clock_beacon_round-Keeps first s =
      Keeps-bind s (λ last. modify (after_round last) >> pure last)
        (send_beacons w s.next_beacon_sequence first 0 s.beacon_addresses s)
        (send_beacons-Keeps s.next_beacon_sequence first 0 s.beacon_addresses s)
        (λ last t. Level-refl t.base)

  beacons_if_due-Keeps : (read : ℕ) (s : UdpOutputV3 W) → Keeps s (beacons_if_due w read s)
  unfolding beacons_if_due
  beacons_if_due-Keeps read s =
      elim (beacon_due read s.last_beacon_us s.beacon_interval_us)
        as (λ due. Keeps s ((if due then send_clock_beacon_round w (some read) else pure read) s)) [
          | true ↦ send_clock_beacon_round-Keeps (some read) s
          | false ↦ Level-refl s.base
        ]

  add_lead-Keeps : (now : ℕ) (s : UdpOutputV3 W) → Keeps s (add_lead now s)
  unfolding add_lead
  add_lead-Keeps now s = ground arith

  scheduled_apply_at-Keeps : (s : UdpOutputV3 W) → Keeps s (scheduled_apply_at w s)
  unfolding scheduled_apply_at
  scheduled_apply_at-Keeps s =
      Keeps-bind s (λ read. beacons_if_due w read >>= add_lead) (read_monotonic_us w s)
        (read_monotonic_us-Keeps s)
        (λ read t.
          Keeps-bind t add_lead (beacons_if_due w read t) (beacons_if_due-Keeps read t)
            add_lead-Keeps)

  apply_time-Keeps : (metadata : Option ℕ) (s : UdpOutputV3 W) → Keeps s (apply_time w metadata s)
  unfolding apply_time
  apply_time-Keeps metadata s =
      elim s.scheduled_apply
        as (λ scheduled. Keeps s (
          (if scheduled
              then of_result (require (not (is_some metadata)) value_error)
                >> (scheduled_apply_at w >>= (λ t. pure (some t)))
              else pure metadata)
            s)) [
              | true ↦
                  Keeps-bind s (λ done. scheduled_apply_at w >>= (λ t. pure (some t)))
                    (of_result (require (not (is_some metadata)) value_error) s) (Level-refl s.base)
                    (λ done t.
                      Keeps-bind t (λ u. pure (some u)) (scheduled_apply_at w t)
                        (scheduled_apply_at-Keeps t) (λ u v. Level-refl v.base))
              | false ↦ Level-refl s.base
            ]

  pub prepare-Keeps : (frame : PhysicalFrame) (s : UdpOutputV3 W) → Keeps s (prepare w frame s)
  unfolding prepare
  prepare-Keeps frame s =
      Keeps-bind s
        (λ done.
          apply_time w frame.apply_at_us >>= (λ t. pure (prepared frame s.needs_key_frame t)))
        (of_result (check_metadata frame.apply_at_us) s) (Level-refl s.base)
        (λ done t.
          Keeps-bind t (λ u. pure (prepared frame s.needs_key_frame u))
            (apply_time w frame.apply_at_us t) (apply_time-Keeps frame.apply_at_us t)
            (λ u v. Level-refl v.base))
