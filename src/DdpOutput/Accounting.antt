-- ===== src/DdpOutput/Accounting.antt =====
-- ddp_output.py: every frame that `DdpOutput` takes from its queue is counted once.
use light_belt.Prelude.{
  ℕ, ◌+◌, ◌≡◌, ◌∙◌, refl, ap, Bool, true, false, none, some, List, [], ◌∷◌, Result, ok, err,
  Result-cases, inl, inr, if◌then◌else◌,
}
use light_belt.Prelude.Actions.{Action, pure, modify, ◌>>◌, handle, resume}
use light_belt.Frames.{Address, DigitalNodeFrame, PhysicalFrame}
use light_belt.Transport.{World, Sender, count_packet, node_failed, each, send_datagram}
use light_belt.Transport.Effects.{Quiet, send_datagram-Quiet}
use light_belt.Transport.Rounds.{
  frames_counted, After, node_failed-After, from_earlier, each-After, Flushed, flushed,
}
use light_belt.DdpOutput.{
  node_packets, found_packets, send_packets, send_enabled, send_node, send_popped, flush_latest,
}

module _ {W : Type 0} (w : World W) where
  -- The packets of a node leave the frame counters alone, also where one raises.
  Level : Sender W → Result Bool × Sender W → Type 0
  Level s (r, t) =
      (t.mode ≡ s.mode) × (t.queue ≡ s.queue) × (frames_counted t.health ≡ frames_counted s.health)

  after_send :
      (s : Sender W) (k : Action (Sender W) Bool)
      → ((t : Sender W) → Level t (k t))
      → (r : Result (Unit {0}) × Sender W) → Quiet s r.1
      → Level s (resume (λ done. modify count_packet >> k) r)
  unfolding Level
  after_send s k h (ok tt, t) q =
      let (m, u, f) = h (count_packet t) in
      (m ∙ q.mode, u ∙ q.queue, f ∙ ap frames_counted q.health)
  after_send s k h (err e, t) q = (q.mode, q.queue, ap frames_counted q.health)

  send_packets-Level :
      (address : Address) (packets : List (List ℕ)) (s : Sender W)
      → Level s (send_packets w address packets s)
  unfolding send_packets Level
  send_packets-Level address [] s = (refl, refl, refl)
  send_packets-Level address (packet ∷ packets) s =
      unfold Level in
      after_send s (send_packets w address packets) (send_packets-Level address packets)
        (send_datagram w (packet, address) s) (send_datagram-Quiet w (packet, address) s)

  handled :
      (safe : Bool) (s : Sender W) (r : Result Bool × Sender W)
      → Level s r
      → After safe s (handle (node_failed safe) r)
  unfolding Level
  handled safe s (ok sent, t) h = h
  handled safe s (err e, t) (m, q, f) =
      from_earlier safe s t m q f (node_failed safe e t) (node_failed-After safe e t)

  send_enabled-After :
      (port : ℕ) (frame : PhysicalFrame) (d : DigitalNodeFrame) (s : Sender W)
      → After frame.safe_state s (send_enabled w port frame d s)
  unfolding send_enabled
  send_enabled-After port frame d s = elim (Result-cases (node_packets frame d)) [
    | inl (packets, e) ↦ rw e (
        handled frame.safe_state s (send_packets w (d.address.0, port) (found_packets packets) s)
          (send_packets-Level (d.address.0, port) (found_packets packets) s))
    | inr (x, e) ↦ rw e (node_failed-After frame.safe_state x s)
  ]

  send_node-After :
      (port : ℕ) (frame : PhysicalFrame) (d : DigitalNodeFrame) (s : Sender W)
      → After frame.safe_state s (send_node w port frame d s)
  unfolding send_node
  send_node-After port frame d s =
      elim d.enabled
        as (λ b.
          After frame.safe_state s ((if b then send_enabled w port frame d else pure true) s)) [
            | true ↦ send_enabled-After port frame d s
            | false ↦ (refl, refl, refl)
          ]

  flush-Flushed :
      (port : ℕ) (s : Sender W) (frame : PhysicalFrame)
      → s.queue ≡ some frame
      → Flushed frame.safe_state s (flush_latest w port s)
  unfolding flush_latest send_popped
  flush-Flushed port s frame queued =
      let start : Sender W = record s { queue = none } in
      let f =
        flushed frame.safe_state start (each (send_node w port frame) frame.digital_frames start)
          (each-After frame.safe_state (send_node w port frame) (send_node-After port frame)
            frame.digital_frames start)
          refl in
      rw queued (record { counted = f.counted; queue = f.queue; raised = f.raised })

  -- A frame that is flushed is counted once, as sent or as dropped, however its nodes fare and also
  -- where the call raises; and the queue is empty after.
  pub ddp_flush_counts_frame :
      (port : ℕ) (s : Sender W) (frame : PhysicalFrame)
      → s.queue ≡ some frame
      → (frames_counted (flush_latest w port s).1.health ≡ frames_counted s.health + 1)
        × ((flush_latest w port s).1.queue ≡ none)
  ddp_flush_counts_frame port s frame queued =
      let f = flush-Flushed port s frame queued in (f.counted, f.queue)
