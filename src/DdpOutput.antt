-- ===== src/DdpOutput.antt =====
-- light_engine/outputs/ddp_output.py: `DdpOutput`, which sends the nodes of the latest frame as DDP
-- packets.
pub mod Shown
pub mod Delivery
pub mod Accounting
mod Examples
use light_belt.Prelude.{
  ℕ, Bool, true, false, Option, none, some, List, [], ◌∷◌, ◌++◌, min, map, join, leb, is_empty,
  Result, if◌then◌else◌,
}
use light_belt.Prelude.Actions.{
  Action, pure, when, modify, of_result, ◌>>=◌, ◌>>◌, attempt, handle, resume,
}
use light_belt.Prelude.Sorting.{sort_by}
use light_belt.Outputs.{pop_latest}
use light_belt.Wire.Pixels.{Pixel}
use light_belt.Frames.{Address, DigitalNodeFrame, DigitalOutputFrame, PhysicalFrame}
use light_belt.Ddp.{encode_ddp_packets}
use light_belt.Transport.{
  World, Sender, count_packet, node_failed, each, finish_frame, send_datagram, open_socket,
  close_socket, enqueue,
}

-- `DDP_CHANNELS_PER_PACKET`
abbrev pub ddp_channels_per_packet : ℕ
ddp_channels_per_packet = 1440

-- `_to_u8`, on a channel that is rounded already
abbrev pub to_u8 : ℕ → ℕ
to_u8 channel = min 255 channel

-- `sorted(digital_frame.outputs, key=lambda item: item.output_id)`
abbrev pub sorted_outputs : List DigitalOutputFrame → List DigitalOutputFrame
sorted_outputs = sort_by (λ (o : DigitalOutputFrame). o.output_id)

abbrev pub source_pixels : DigitalNodeFrame → List Pixel
source_pixels d =
    if is_empty d.outputs
    then d.pixels
    else join (map (λ (o : DigitalOutputFrame). o.pixels) (sorted_outputs d.outputs))

abbrev pub pixel_u8 : Pixel → Pixel
pixel_u8 (red, green, blue) = (to_u8 red, to_u8 green, to_u8 blue)

-- `_node_pixels`
abbrev pub node_pixels : DigitalNodeFrame → List Pixel
node_pixels d = map pixel_u8 (source_pixels d)

-- `encode_ddp_packets(pixels, sequence=frame.sequence)`; the loop's fuel never runs out.
abbrev pub found_packets : Option (List (List ℕ)) → List (List ℕ)
found_packets none = []
found_packets (some packets) = packets

unfoldable pub node_packets : PhysicalFrame → DigitalNodeFrame → Result (Option (List (List ℕ)))
node_packets frame d = encode_ddp_packets (node_pixels d) frame.sequence ddp_channels_per_packet

module _ {W : Type 0} (w : World W) where
  -- The inner loop: each packet of a node is sent and counted.
  unfoldable pub send_packets : Address → List (List ℕ) → Action (Sender W) Bool
  send_packets address [] = pure true
  send_packets address (packet ∷ packets) = do
    send_datagram w (packet, address)
    modify count_packet
    send_packets address packets

  unfoldable pub send_enabled : ℕ → PhysicalFrame → DigitalNodeFrame → Action (Sender W) Bool
  send_enabled port frame d =
      attempt
        (do
          packets ← of_result (node_packets frame d)
          send_packets (d.address.0, port) (found_packets packets))
        (node_failed frame.safe_state)

  -- One round of the loop over the nodes, which go to their host at the output's own port.
  unfoldable pub send_node : ℕ → PhysicalFrame → DigitalNodeFrame → Action (Sender W) Bool
  send_node port frame d = if d.enabled then send_enabled port frame d else pure true

  unfoldable pub send_popped : ℕ → Option PhysicalFrame → Action (Sender W) (Unit {0})
  send_popped port none = pure tt
  send_popped port (some frame) = do
    frame_ok ← each (send_node port frame) frame.digital_frames
    finish_frame frame_ok

  unfoldable pub flush_latest : ℕ → Action (Sender W) (Unit {0})
  flush_latest port s =
      let (queue, frame) = pop_latest s.queue in send_popped port frame (record s { queue = queue })

  unfoldable pub send_frame : ℕ → PhysicalFrame → Action (Sender W) (Unit {0})
  send_frame port frame = do flush ← enqueue frame; when flush (flush_latest port)

  unfoldable pub open_output : Action (Sender W) (Unit {0})
  open_output = open_socket w

  unfoldable pub close_output : Action (Sender W) (Unit {0})
  close_output = close_socket w false
