-- ===== src/UdpOutputV2/Accounting.antt =====
-- udp_output.py: every frame that `UdpOutputV2` takes from its queue is counted once.
use light_belt.Prelude.{
  refl, ap, ◌+◌, ◌≡◌, Bool, true, false, none, some, arith, Error, Result, ok, err, Result-cases,
  inl, inr,
}
use light_belt.Prelude.Actions.{pure, modify, ◌>>◌, handle, resume}
use light_belt.Frames.{DigitalNodeFrame, PhysicalFrame}
use light_belt.Transport.{
  is_production, World, Sender, count_packet, node_failed, each, send_datagram,
}
use light_belt.Transport.Effects.{Quiet, send_datagram-Quiet}
use light_belt.Transport.Rounds.{
  frames_counted, After, node_failed-After, from_earlier, each-After, Flushed, flushed,
}
use light_belt.UdpOutputV2.{encode_node, send_node, send_popped, flush_latest}

module _ {W : Type 0} (w : World W) where
  after_send :
      (safe : Bool) (s : Sender W) (r : Result (Unit {0}) × Sender W)
      → Quiet s r.1
      → After safe s
          (handle (node_failed safe) (resume (λ done. modify count_packet >> pure true) r))
  after_send safe s (ok tt, t) q = ground (arith, q.health)
  after_send safe s (err e, t) q =
      from_earlier safe s t q.mode q.queue (ap frames_counted q.health) (node_failed safe e t)
        (node_failed-After safe e t)

  send_node-After :
      (frame : PhysicalFrame) (d : DigitalNodeFrame) (s : Sender W)
      → After frame.safe_state s (send_node w frame d s)
  unfolding send_node
  send_node-After frame d s = elim (Result-cases (encode_node frame d)) [
    | inl (packet, e) ↦ rw e (
        after_send frame.safe_state s (send_datagram w (packet, d.address) s)
          (send_datagram-Quiet w (packet, d.address) s))
    | inr (x, e) ↦ rw e (node_failed-After frame.safe_state x s)
  ]

  flush-Flushed :
      (s : Sender W) (frame : PhysicalFrame)
      → s.queue ≡ some frame
      → Flushed frame.safe_state s (flush_latest w s)
  unfolding flush_latest send_popped
  flush-Flushed s frame queued =
      let start : Sender W = record s { queue = none } in
      let f =
        flushed frame.safe_state start (each (send_node w frame) frame.digital_frames start)
          (each-After frame.safe_state (send_node w frame) (send_node-After frame)
            frame.digital_frames start)
          refl in
      rw queued (record { counted = f.counted; queue = f.queue; raised = f.raised })

  -- A frame that is flushed is counted once, as sent or as dropped, however its nodes fare and also
  -- where the call raises; and the queue is empty after.
  pub flush_counts_frame :
      (s : Sender W) (frame : PhysicalFrame)
      → s.queue ≡ some frame
      → (frames_counted (flush_latest w s).1.health ≡ frames_counted s.health + 1)
        × ((flush_latest w s).1.queue ≡ none)
  flush_counts_frame s frame queued = (let f = flush-Flushed s frame queued in (f.counted, f.queue))

  -- An exception comes out of a flush in production only, never for a frame of the safe state, and
  -- it leaves the output unhealthy.
  pub flush_raises :
      (s : Sender W) (frame : PhysicalFrame) (e : Error)
      → s.queue ≡ some frame
      → (flush_latest w s).0 ≡ err e
      → (frame.safe_state ≡ false)
        × (is_production (flush_latest w s).1.mode ≡ true)
        × ((flush_latest w s).1.health.healthy ≡ false)
  flush_raises s frame e queued raised = (flush-Flushed s frame queued).raised e raised
