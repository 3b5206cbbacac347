-- ===== src/DdpOutput/Delivery.antt =====
-- ddp_output.py: what `DdpOutput` hands to the network in MEMORY mode.
use light_belt.Prelude.{
  ℕ, ◌+◌, ◌≡◌, refl, sym, Bool, true, false, Option, none, some, List, [], ◌∷◌, ◌++◌, append-nil,
  map, arith, Result, ok, err, length, if◌then◌else◌, Bool-cases, inl, inr, ◌⊎◌, ◌∙◌,
}
use light_belt.Prelude.Actions.{pure, handle}
use light_belt.Wire.Pixels.{Pixel}
use light_belt.Frames.{Address, DigitalNodeFrame, PhysicalFrame}
use light_belt.Ddp.{frame_payload}
use light_belt.Ddp.Packets.{contents, encode_ddp_packets_total}
use light_belt.Transport.{memory, World, Sender, Datagram, node_failed, each}
use light_belt.Transport.Memory.{
  Sends, all_of, each-Sends, after_one, Sends-cons, send_datagram_in_memory, Delivered, delivered,
}
use light_belt.DdpOutput.{
  node_pixels, source_pixels, node_packets, found_packets, send_packets, send_enabled, send_node,
  send_popped, flush_latest,
}
use light_belt.DdpOutput.Shown.{shown, HasPixels, frame_payload-shown, source_pixels-HasPixels}

abbrev pub to_address : Address → List ℕ → Datagram
to_address address packet = (packet, address)

-- The packets of a node.
abbrev packets_made : Result (Option (List (List ℕ))) → List (List ℕ)
packets_made (ok packets) = found_packets packets
packets_made (err e) = []

abbrev pub packets_of : PhysicalFrame → DigitalNodeFrame → List (List ℕ)
packets_of frame d = if d.enabled then packets_made (node_packets frame d) else []

-- Its datagrams, at the port of the output.
abbrev pub datagrams_of : ℕ → PhysicalFrame → DigitalNodeFrame → List Datagram
datagrams_of port frame d = map (to_address (d.address.0, port)) (packets_of frame d)

-- The encoder returns packets for every node, and they hold its pixels.
node_packets-ok :
    (frame : PhysicalFrame) (d : DigitalNodeFrame)
    → (packets : List (List ℕ)) × (node_packets frame d ≡ ok (some packets))
      × (contents packets ≡ frame_payload (node_pixels d))
unfolding node_packets
node_packets-ok frame d =
    let (packets, made, whole, _, _, _, _) =
      encode_ddp_packets_total (node_pixels d) frame.sequence 1440 (omega arith) in
    (packets, made, whole)

module _ {W : Type 0} (w : World W) where
  send_packets-Sends :
      (address : Address) (packets : List (List ℕ)) (s : Sender W)
      → s.mode ≡ memory
      → Sends (map (to_address address) packets) s (send_packets w address packets s)
  unfolding send_packets
  send_packets-Sends address [] s m = (m, sym (append-nil s.sent_datagrams), omega arith)
  send_packets-Sends address (packet ∷ packets) s m =
      rw (send_datagram_in_memory w (packet, address) s m) (
        Sends-cons (packet, address) (map (to_address address) packets) s
          (send_packets w address packets (after_one (packet, address) s))
          (send_packets-Sends address packets (after_one (packet, address) s) m))

  handled :
      (new : List Datagram) (s : Sender W) (r : Result Bool × Sender W)
      → Sends new s r
      → (safe : Bool) → Sends new s (handle (node_failed safe) r)
  handled new s (ok sent, t) h safe = h
  handled new s (err e, t) h safe = elim h [ ]

  send_enabled-Sends :
      (port : ℕ) (frame : PhysicalFrame) (d : DigitalNodeFrame) (s : Sender W)
      → s.mode ≡ memory
      → Sends
          (map (to_address (d.address.0, port)) (packets_made (node_packets frame d)))
          s
          (send_enabled w port frame d s)
  unfolding send_enabled
  send_enabled-Sends port frame d s m =
      let (packets, made, whole) = node_packets-ok frame d in
      rw made (
        handled (map (to_address (d.address.0, port)) packets) s
          (send_packets w (d.address.0, port) packets s)
          (send_packets-Sends (d.address.0, port) packets s m) frame.safe_state)

  send_node-Sends :
      (port : ℕ) (frame : PhysicalFrame) (d : DigitalNodeFrame) (s : Sender W)
      → s.mode ≡ memory
      → Sends (datagrams_of port frame d) s (send_node w port frame d s)
  unfolding send_node
  send_node-Sends port frame d s m =
      elim d.enabled
        as (λ b.
          Sends
            (map (to_address (d.address.0, port))
              (if b then packets_made (node_packets frame d) else []))
            s ((if b then send_enabled w port frame d else pure true) s)) [
              | true ↦ send_enabled-Sends port frame d s m
              | false ↦ (m, sym (append-nil s.sent_datagrams), omega arith)
            ]

  flush_sends :
      (port : ℕ) (s : Sender W) (frame : PhysicalFrame)
      → s.mode ≡ memory
      → s.queue ≡ some frame
      → Delivered (all_of (datagrams_of port frame) frame.digital_frames) s (flush_latest w port s)
  unfolding flush_latest send_popped
  flush_sends port s frame m queued =
      let start : Sender W = record s { queue = none } in
      rw queued (
        delivered (all_of (datagrams_of port frame) frame.digital_frames) start
          (each (send_node w port frame) frame.digital_frames start)
          (each-Sends (datagrams_of port frame) (send_node w port frame)
            (send_node-Sends port frame) frame.digital_frames start m))

-- The datagrams are those of the nodes, in order: none for a node that is not enabled; for the others
-- they go to the node's host at the port, and their contents are what the node shows.
abbrev pub Receives : ℕ → List DigitalNodeFrame → List Datagram → Type 0
Receives port [] new = new ≡ []
Receives port (d ∷ ds) new =
    ((d.enabled ≡ false) × Receives port ds new)
    ⊎ ((d.enabled ≡ true)
        × ((packets : List (List ℕ)) × (pixels : List Pixel) × (later : List Datagram) × (new
              ≡ map (to_address (d.address.0, port)) packets ++ later)
            × HasPixels d pixels
            × (contents packets ≡ shown pixels)
            × Receives port ds later))

outgoing-Receives :
    (port : ℕ) (frame : PhysicalFrame) (ds : List DigitalNodeFrame)
    → Receives port ds (all_of (datagrams_of port frame) ds)
outgoing-Receives port frame [] = refl
outgoing-Receives port frame (d ∷ ds) =
    let (packets, made, whole) = node_packets-ok frame d in
    let rest = outgoing-Receives port frame ds in
    elim (Bool-cases d.enabled) [
      | inl e ↦ inr (
        e,
        (
          packets,
          source_pixels d,
          all_of (datagrams_of port frame) ds,
          rw (made, e) refl,
          source_pixels-HasPixels d,
          whole ∙ frame_payload-shown (source_pixels d),
          rest,
        ),
      )
      | inr e ↦ inl (e, rw e rest)
    ]

-- In MEMORY mode a flush raises nothing and appends datagrams to those sent before, and counts as many
-- packets. They are those of the frame's nodes, in order: none for a node that is not enabled; for an
-- enabled one they go to its host at the output's port, and their contents after the headers are the
-- channels of its pixels, each at most 255, or three zeros if it has none. The pixels are the node's
-- own if it has no outputs, and else those of its outputs in the order of the outputs' numbers.
pub ddp_flush_delivers :
    {W : Type 0} (w : World W) (port : ℕ) (s : Sender W) (frame : PhysicalFrame)
    → s.mode ≡ memory
    → s.queue ≡ some frame
    → (new : List Datagram) × ((flush_latest w port s).0 ≡ ok tt)
      × ((flush_latest w port s).1.sent_datagrams ≡ s.sent_datagrams ++ new)
      × ((flush_latest w port s).1.health.packets_sent ≡ s.health.packets_sent + length new)
      × Receives port frame.digital_frames new
ddp_flush_delivers w port s frame m queued =
    let (returns, sent, counted) = flush_sends w port s frame m queued in
    (
      all_of (datagrams_of port frame) frame.digital_frames,
      returns,
      sent,
      counted,
      outgoing-Receives port frame frame.digital_frames,
    )
