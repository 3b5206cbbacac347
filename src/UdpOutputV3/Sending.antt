-- ===== src/UdpOutputV3/Sending.antt =====
-- udp_output.py: the rounds of datagrams of `flush_latest` of UdpOutputV3, by how they end.
use light_belt.Prelude.{
  Bool-cases, inl, inr, ℕ, zero, suc, ◌+◌, ◌≡◌, ◌∙◌, refl, ap, Bool, true, false, none, some, List,
  [], ◌∷◌, arith, Error, Result, ok, err, if◌then◌else◌, ◌==◌,
}
use light_belt.Prelude.Actions.{
  Action, pure, raise, modify, ◌>>◌, ◌>>=◌, handle, resume, returned, attempt, Ensures,
  Ensures-bind, Ensures-weaken,
}
use light_belt.Transport.{
  set_error, set_healthy, drop_packet, drop_frame, send_error, is_production, World, Sender,
  Datagram, count_packet, send_datagram, of_world,
}
use light_belt.Transport.Effects.{send_datagram-Quiet}
use light_belt.Transport.Rounds.{frames_counted}
use light_belt.UdpOutputV3.Accounting.{Level, Level-refl, Level-trans, Quiet-Level}
use light_belt.UdpOutputV3.Flush.{
  Locals, both, send_failed, send_one, send_round, spacing_failed, pause, go_on, next_rounds,
  send_rounds,
}

module _ {W : Type 0} where
  -- A part that raised, in production, and has counted the frame.
  pub record Lost (s t : Sender W) : Type 0 where
    pub production : is_production t.mode ≡ true
    pub queue : t.queue ≡ s.queue
    pub frames : frames_counted t.health ≡ frames_counted s.health + 1

  abbrev pub Goes : {A : Type 0} → Sender W → Result A × Sender W → Type 0
  Goes {A} s r = Ensures {A = A} (λ a t. Level s t) (λ e t. Lost s t) r

  Goes-bind :
      {A B : Type 0} (s : Sender W) (k : A → Action (Sender W) B) (r : Result A × Sender W)
      → Goes s r
      → ((a : A) (t : Sender W) → Goes t (k a t))
      → Goes s (resume k r)
  Goes-bind s k r h later =
      Ensures-bind (λ a t. Level s t) (λ e t. Lost s t) (λ a t. Level s t) k r h
        (λ a t l.
          Ensures-weaken (λ a u. Level t u) (λ e u. Lost t u) (λ a u. Level s u) (λ e u. Lost s u)
            (k a t) (later a t) (λ b u m. Level-trans s t u l m)
            (λ e u m. record {
              production = m.production;
              queue = m.queue ∙ l.queue;
              frames = m.frames ∙ ap (λ (n : ℕ). n + 1) l.frames;
            }))

  -- A handler runs in a state that is level with the start.
  after_raise :
      {A : Type 0} (s : Sender W) (h : Error → Action (Sender W) A) (r : Result A × Sender W)
      → Level s r.1
      → ((e : Error) (t : Sender W) → Goes t (h e t))
      → Goes s (handle h r)
  unfolding Ensures
  after_raise s h (ok a, t) l later = l
  after_raise s h (err e, t) l later =
      Ensures-weaken (λ a u. Level t u) (λ e u. Lost t u) (λ a u. Level s u) (λ e u. Lost s u)
        (h e t) (later e t) (λ b u m. Level-trans s t u l m)
        (λ e u m. record {
          production = m.production;
          queue = m.queue ∙ l.queue;
          frames = m.frames ∙ ap (λ (n : ℕ). n + 1) l.frames;
        })

module _ {W : Type 0} (w : World W) where
  send_failed-Goes : (safe : Bool) (e : Error) (s : Sender W) → Goes s (send_failed w safe e s)
  unfolding send_failed Ensures
  send_failed-Goes safe e s = elim (Bool-cases (is_production s.mode)) [
    | inl p ↦
        rw p
          (elim safe
            as (λ b. Goes {A = Locals} s (
              (if b then pure (false, some e) else modify drop_frame >> raise e)
                (set_healthy false (set_error (send_error e) (drop_packet s))))) [
                  | true ↦ record { mode = refl; queue = refl; frames = refl }
                  | false ↦ record { production = p; queue = refl; frames = ground arith }
                ])
    | inr p ↦ rw p (record { mode = refl; queue = refl; frames = refl })
  ]

  spacing_failed-Goes : (e : Error) (s : Sender W) → Goes s (spacing_failed w e s)
  unfolding spacing_failed Ensures
  spacing_failed-Goes e s = elim (Bool-cases (is_production s.mode)) [
    | inl p ↦ rw p (record { production = p; queue = refl; frames = ground arith })
    | inr p ↦ rw p (record { mode = refl; queue = refl; frames = refl })
  ]

  after_sending :
      (s : Sender W) (safe : Bool) (r : Result (Unit {0}) × Sender W)
      → Level s r.1
      → Level s (resume {B = Locals} (λ done. modify count_packet >> pure (true, none)) r).1
  after_sending s safe (ok done, t) l = record { mode = l.mode; queue = l.queue; frames = l.frames }
  after_sending s safe (err e, t) l = l

  send_one-Goes : (safe : Bool) (d : Datagram) (s : Sender W) → Goes s (send_one w safe d s)
  unfolding send_one
  send_one-Goes safe d s =
      after_raise s (send_failed w safe)
        (resume {B = Locals} (λ done. modify count_packet >> pure (true, none))
          (send_datagram w d s))
        (after_sending s safe (send_datagram w d s)
          (Quiet-Level s (send_datagram w d s).1 (send_datagram-Quiet w d s)))
        (send_failed-Goes safe)

  send_round-Goes :
      (safe : Bool) (ds : List Datagram) (l : Locals) (s : Sender W)
      → Goes s (send_round w safe ds l s)
  unfolding send_round Ensures
  send_round-Goes safe [] l s = Level-refl s
  send_round-Goes safe (d ∷ ds) l s =
      Goes-bind s (λ m. send_round w safe ds (both l m)) (send_one w safe d s)
        (send_one-Goes safe d s) (λ m t. send_round-Goes safe ds (both l m) t)

  pause-Goes : (spacing : ℕ) (l : Locals) (s : Sender W) → Goes s (pause w spacing l s)
  unfolding pause Ensures
  pause-Goes spacing l s =
      elim (spacing == 0)
        as (λ b. Goes {A = Locals × Bool} s (
          (if b
              then pure (l, true)
              else attempt (of_world (w.sleep_us spacing) >> pure (l, true)) handler)
            s)) [
              | true ↦ Level-refl s
              | false ↦
                  after_raise s handler ((of_world (w.sleep_us spacing) >> pure (l, true)) s)
                    (slept (w.sleep_us spacing s.world))
                    (λ e t.
                      Goes-bind t (λ m. pure (both l m, false)) (spacing_failed w e t)
                        (spacing_failed-Goes e t) (λ m u. Level-refl u))
            ]
    where
      handler : Error → Action (Sender W) (Locals × Bool)
      handler e = spacing_failed w e >>= (λ m. pure (both l m, false))

      slept :
          (r : Result (Unit {0}) × W)
          → Level s
              (resume {B = Locals × Bool}
                (λ done. pure (l, true))
                (returned (λ v. record s { world = v }) r)).1
      slept (ok done, v) = record { mode = refl; queue = refl; frames = refl }
      slept (err e, v) = record { mode = refl; queue = refl; frames = refl }

  go_on-Goes :
      (rest : Locals → Action (Sender W) Locals)
      → ((l : Locals) (s : Sender W) → Goes s (rest l s))
      → (p : Locals × Bool) (s : Sender W) → Goes s (go_on w rest p s)
  unfolding Ensures
  go_on-Goes rest h (l, true) s = h l s
  go_on-Goes rest h (l, false) s = Level-refl s

  next_rounds-Goes :
      (n spacing : ℕ) (rest : Locals → Action (Sender W) Locals)
      → ((l : Locals) (s : Sender W) → Goes s (rest l s))
      → (l : Locals) (s : Sender W) → Goes s (next_rounds w n spacing rest l s)
  unfolding Ensures
  next_rounds-Goes zero spacing rest h l s = Level-refl s
  next_rounds-Goes (suc n) spacing rest h l s =
      Goes-bind s (go_on w rest) (pause w spacing l s) (pause-Goes spacing l s) (go_on-Goes rest h)

  pub send_rounds-Goes :
      (n spacing : ℕ) (safe : Bool) (ds : List Datagram) (l : Locals) (s : Sender W)
      → Goes s (send_rounds w n spacing safe ds l s)
  unfolding send_rounds Ensures
  send_rounds-Goes zero spacing safe ds l s = Level-refl s
  send_rounds-Goes (suc n) spacing safe ds l s =
      Goes-bind s (next_rounds w n spacing (send_rounds w n spacing safe ds))
        (send_round w safe ds l s) (send_round-Goes safe ds l s)
        (next_rounds-Goes n spacing (send_rounds w n spacing safe ds)
          (send_rounds-Goes n spacing safe ds))
