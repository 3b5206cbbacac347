-- ===== src/UdpOutputV2/Delivery.antt =====
-- udp_output.py: what `UdpOutputV2` hands to the network in MEMORY mode, and what a node reads of it.
use light_belt.Prelude.{
  ℕ, ◌+◌, ◌≡◌, ◌≤◌, refl, none, some, List, [], ◌∷◌, ◌++◌, append-nil, arith, Error, Result, ok,
  err, Result-cases, ==_refl, inl, inr, length, All, ◌⊎◌, ◌*◌, if◌then◌else◌,
}
use light_belt.Frames.{Address, DigitalNodeFrame, PhysicalFrame}
use light_belt.Transport.{memory, World, Sender, Datagram, node_failed, each, send_datagram}
use light_belt.Transport.Memory.{Sends, all_of, each-Sends, Delivered, delivered}
use light_belt.UdpV2.{UdpV2Packet, post_init, decode}
use light_belt.UdpV2.Codec.{
  IsValid, IsValid→post_init, udp_v2_encode_total, udp_v2_decode-encode, post_init→IsValid,
}
use light_belt.Wire.Pixels.{max_udp_payload}
use light_belt.UdpOutputV2.{encode_node, send_node, send_popped, flush_latest}

-- The datagram of a node's frame, if it can be encoded.
abbrev addressed : Address → Result (List ℕ) → List Datagram
addressed address (ok bytes) = (bytes, address) ∷ []
addressed address (err e) = []

-- The datagrams of the nodes, in order.
abbrev pub outgoing : PhysicalFrame → List DigitalNodeFrame → List Datagram
outgoing frame = all_of (λ (d : DigitalNodeFrame). addressed d.address (encode_node frame d))

module _ {W : Type 0} (w : World W) where
  send_node-Sends :
      (frame : PhysicalFrame) (d : DigitalNodeFrame) (s : Sender W)
      → s.mode ≡ memory
      → Sends (addressed d.address (encode_node frame d)) s (send_node w frame d s)
  unfolding send_node send_datagram node_failed
  send_node-Sends frame d s m = elim (Result-cases (encode_node frame d)) [
    | inl (packet, e) ↦ rw e (ground arith)
    | inr (x, e) ↦ rw e (ground (arith, append-nil s.sent_datagrams))
  ]

-- The packet that a node is to get of a frame, written out: the first flag marks the safe state.
abbrev pub meant : PhysicalFrame → DigitalNodeFrame → UdpV2Packet
meant frame d = record {
  digital_node_id = d.node_id;
  sequence = frame.sequence;
  pixels = d.pixels;
  flags = if frame.safe_state then 1 else 0;
  message_type = 1;
}

-- Its datagram fits the protocol's limit.
abbrev pub IsShort : DigitalNodeFrame → Type 0
IsShort d = 18 + length d.pixels * 3 ≤ max_udp_payload

-- The datagrams are those of the nodes, in order: none for a node whose packet is out of range; for
-- the others one to the node's address, which the node reads as its packet.
abbrev pub Reads : PhysicalFrame → List DigitalNodeFrame → List Datagram → Type 0
Reads frame [] new = new ≡ []
Reads frame (d ∷ ds) new =
    ((¬ IsValid (meant frame d)) × Reads frame ds new)
    ⊎ (IsValid (meant frame d)
        × ((bytes : List ℕ) × (later : List Datagram) × (new ≡ (bytes, d.address) ∷ later)
            × (decode bytes (some d.node_id) none max_udp_payload ≡ some (meant frame d))
            × Reads frame ds later))

-- A node's packet is encoded, and read by the node, if it is in range, and else refused.
encode_node-read :
    (frame : PhysicalFrame) (d : DigitalNodeFrame)
    → IsShort d
    → ((e : Error) × (encode_node frame d ≡ err e) × (¬ IsValid (meant frame d)))
      ⊎ (IsValid (meant frame d)
          × ((bytes : List ℕ) × (encode_node frame d ≡ ok bytes)
              × (decode bytes (some d.node_id) none max_udp_payload ≡ some (meant frame d))))
unfolding encode_node
encode_node-read frame d short =
    let p = meant frame d in
    elim (Result-cases (post_init p)) [
      | inl (done, built) ↦
          let (bytes, encoded, size, _) = udp_v2_encode_total p built in
          inr (
            post_init→IsValid p built,
            (
              bytes,
              rw built encoded,
              udp_v2_decode-encode p bytes (some d.node_id) none max_udp_payload built encoded
                  (omega (arith, size, short)) (==_refl d.node_id) refl,
            ),
          )
      | inr (e, refused) ↦
          inl (e, rw refused refl, λ v. ground (arith, refused, IsValid→post_init p v))
    ]

outgoing-Reads :
    (frame : PhysicalFrame) (ds : List DigitalNodeFrame)
    → All IsShort ds
    → Reads frame ds (outgoing frame ds)
outgoing-Reads frame [] short = refl
outgoing-Reads frame (d ∷ ds) short = elim (encode_node-read frame d short.0) [
  | inl (e, refused, out) ↦ inl (out, rw refused (outgoing-Reads frame ds short.1))
  | inr (v, (bytes, encoded, read)) ↦
      inr (v, (bytes, outgoing frame ds, rw encoded refl, read, outgoing-Reads frame ds short.1))
]

module _ {W : Type 0} (w : World W) where
  flush_sends :
      (s : Sender W) (frame : PhysicalFrame)
      → s.mode ≡ memory
      → s.queue ≡ some frame
      → Delivered (outgoing frame frame.digital_frames) s (flush_latest w s)
  unfolding flush_latest send_popped
  flush_sends s frame m queued = rw queued (
      delivered (outgoing frame frame.digital_frames) (record s { queue = none })
        (each (send_node w frame) frame.digital_frames (record s { queue = none }))
        (each-Sends (λ (d : DigitalNodeFrame). addressed d.address (encode_node frame d))
          (send_node w frame) (send_node-Sends w frame) frame.digital_frames
          (record s { queue = none }) m))

  -- In MEMORY mode a flush raises nothing and appends datagrams to those sent before, and counts as
  -- many packets. They are those of the frame's nodes, in order: none for a node whose packet has a
  -- field out of range; for the others one to the node's address, which the node decodes, with the
  -- default limit of 65507 bytes, as the packet of its number, the frame's sequence, its pixels and
  -- the flag of the safe state. Each node has at most as many pixels as fit that limit.
  pub flush_delivers :
      (s : Sender W) (frame : PhysicalFrame)
      → s.mode ≡ memory
      → s.queue ≡ some frame
      → All IsShort frame.digital_frames
      → (new : List Datagram) × ((flush_latest w s).0 ≡ ok tt)
        × ((flush_latest w s).1.sent_datagrams ≡ s.sent_datagrams ++ new)
        × ((flush_latest w s).1.health.packets_sent ≡ s.health.packets_sent + length new)
        × Reads frame frame.digital_frames new
  flush_delivers s frame m queued short =
      let (returns, sent, counted) = flush_sends s frame m queued in
      (
        outgoing frame frame.digital_frames,
        returns,
        sent,
        counted,
        outgoing-Reads frame frame.digital_frames short,
      )
