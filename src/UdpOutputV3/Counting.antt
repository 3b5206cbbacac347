-- ===== src/UdpOutputV3/Counting.antt =====
-- udp_output.py: every frame that UdpOutputV3 prepares is counted once by `flush_latest`.
use light_belt.Prelude.{
  ℕ, ◌+◌, ◌≡◌, ◌∙◌, refl, ap, true, false, none, some, List, arith, Error, Result, ok, err,
  Bool-cases, inl, inr, ◌⊎◌,
}
use light_belt.Prelude.Actions.{returned, handle, resume, Ensures}
use light_belt.Frames.{PhysicalFrame}
use light_belt.Transport.{is_production, World, Sender, Datagram}
use light_belt.Transport.Rounds.{frames_counted}
use light_belt.UdpOutputV3.{UdpOutputV3, on_base}
use light_belt.UdpOutputV3.Accounting.{Keeps, prepare-Keeps}
use light_belt.UdpOutputV3.Sending.{Goes, send_rounds-Goes}
use light_belt.UdpOutputV3.Flush.{
  Prepared, Locals, round_count, finish, encode_failed, encode_nodes, send_rounds, send_encoded,
  prepare, prepare_failed, send_popped, flush_latest,
}

module _ {W : Type 0} (w : World W) where
  -- The frame is counted, and the queue as it was.
  record Done (s : UdpOutputV3 W) (r : Result (Unit {0}) × UdpOutputV3 W) : Type 0 where
    pub frames : frames_counted r.1.base.health ≡ frames_counted s.base.health + 1
    pub queue : r.1.base.queue ≡ s.base.queue

  finish-Done : (p : Prepared) (l : Locals) (s : UdpOutputV3 W) → Done s (finish w p l s)
  unfolding finish
  finish-Done p (true, last) s = record { frames = ground arith; queue = ground arith }
  finish-Done p (false, last) s = record { frames = ground arith; queue = ground arith }

  encode_failed-Done : (e : Error) (s : UdpOutputV3 W) → Done s (on_base (encode_failed w e) s)
  unfolding encode_failed
  encode_failed-Done e s = record { frames = ground arith; queue = ground arith }

  after_rounds :
      (p : Prepared) (s : UdpOutputV3 W) (r : Result Locals × Sender W)
      → Goes s.base r
      → Done s (resume (finish w p) (returned (λ b. record s { base = b }) r))
  unfolding Ensures
  after_rounds p s (ok l, t) h =
      let d = finish-Done p l (record s { base = t }) in
      record { frames = d.frames ∙ ap (λ (n : ℕ). n + 1) h.frames; queue = d.queue ∙ h.queue }
  after_rounds p s (err e, t) h = record { frames = h.frames; queue = h.queue }

  send_encoded-Done :
      (frame : PhysicalFrame) (p : Prepared) (r : Result (List Datagram)) (s : UdpOutputV3 W)
      → Done s (send_encoded w frame p r s)
  unfolding send_encoded
  send_encoded-Done frame p (err e) s = encode_failed-Done e s
  send_encoded-Done frame p (ok ds) s =
      after_rounds p s
        (send_rounds w (round_count w s p) s.session_start_spacing_us frame.safe_state ds
          (true, none) s.base)
        (send_rounds-Goes w (round_count w s p) s.session_start_spacing_us frame.safe_state ds
          (true, none) s.base)

  -- The handler of the preparation raises what it was given; production counts the frame.
  record Refused (e : Error) (s : UdpOutputV3 W) (r : Result Prepared × UdpOutputV3 W)
      : Type 0 where
    pub raised : r.0 ≡ err e
    pub frames :
        is_production s.base.mode ≡ true
        → frames_counted r.1.base.health ≡ frames_counted s.base.health + 1
    pub queue : r.1.base.queue ≡ s.base.queue

  prepare_failed-Refused : (e : Error) (s : UdpOutputV3 W) → Refused e s (prepare_failed w e s)
  unfolding prepare_failed
  prepare_failed-Refused e s = elim (Bool-cases (is_production s.base.mode)) [
    | inl p ↦ rw p (record { raised = refl; frames = λ h. ground arith; queue = refl })
    | inr p ↦ rw p (record { raised = refl; frames = λ h. ground arith; queue = refl })
  ]

  -- What `send_popped` does, from the frame's preparation.
  abbrev from_preparation :
      PhysicalFrame → Result Prepared × UdpOutputV3 W → Result (Unit {0}) × UdpOutputV3 W
  from_preparation frame r =
      resume (λ p. send_encoded w frame p (encode_nodes frame p frame.digital_frames))
        (handle (prepare_failed w) r)

  after_refusal :
      (frame : PhysicalFrame) (e : Error) (t : UdpOutputV3 W) (r : Result Prepared × UdpOutputV3 W)
      → Refused e t r
      → (is_production t.base.mode ≡ true)
        ⊎ ((resume (λ p. send_encoded w frame p (encode_nodes frame p frame.digital_frames)) r).0
            ≡ ok tt)
      → Done t (resume (λ p. send_encoded w frame p (encode_nodes frame p frame.digital_frames)) r)
  after_refusal frame e t (ok p, u) f h = ground (arith, f.raised)
  after_refusal frame e t (err x, u) f (inl m) = record { frames = f.frames m; queue = f.queue }
  after_refusal frame e t (err x, u) f (inr m) = ground (arith, m)

  -- A frame that cannot be prepared: production counts it, the other modes only raise.
  after_prepare :
      (frame : PhysicalFrame) (s : UdpOutputV3 W) (r : Result Prepared × UdpOutputV3 W)
      → Keeps s r
      → (is_production s.base.mode ≡ true) ⊎ ((from_preparation frame r).0 ≡ ok tt)
      → Done s (from_preparation frame r)
  after_prepare frame s (ok p, t) l h =
      let d = send_encoded-Done frame p (encode_nodes frame p frame.digital_frames) t in
      record { frames = d.frames ∙ ap (λ (n : ℕ). n + 1) l.frames; queue = d.queue ∙ l.queue }
  after_prepare frame s (err e, t) l h =
      let d =
        after_refusal frame e t (prepare_failed w e t) (prepare_failed-Refused e t) (in_later h) in
      record { frames = d.frames ∙ ap (λ (n : ℕ). n + 1) l.frames; queue = d.queue ∙ l.queue }
    where
      in_later :
          {R : Type 0}
          → (is_production s.base.mode ≡ true) ⊎ R
          → (is_production t.base.mode ≡ true) ⊎ R
      in_later (inl m) = inl (ap is_production l.mode ∙ m)
      in_later (inr m) = inr m

  flush_latest-prepare :
      (s : UdpOutputV3 W) (frame : PhysicalFrame)
      → s.base.queue ≡ some frame
      → flush_latest w s
        ≡ from_preparation frame
            (prepare w frame (record s { base = record s.base { queue = none } }))
  unfolding flush_latest send_popped
  flush_latest-prepare s frame queued = rw queued refl

  -- A frame that is flushed in production, or by a call that returns, is counted once, as sent or as
  -- dropped: however its preparation, its nodes, its rounds and the pauses between them fare, and
  -- also where the call raises. The queue is empty after.
  pub scheduled_flush_counts_frame :
      (s : UdpOutputV3 W) (frame : PhysicalFrame)
      → s.base.queue ≡ some frame
      → (is_production s.base.mode ≡ true) ⊎ ((flush_latest w s).0 ≡ ok tt)
      → (frames_counted (flush_latest w s).1.base.health ≡ frames_counted s.base.health + 1)
        × ((flush_latest w s).1.base.queue ≡ none)
  scheduled_flush_counts_frame s frame queued h =
      let start : UdpOutputV3 W = record s { base = record s.base { queue = none } } in
      let e = flush_latest-prepare s frame queued in
      let d =
        after_prepare frame start (prepare w frame start) (prepare-Keeps w frame start)
          (rw⁻¹ e h) in
      rw e (d.frames, d.queue)
