-- ===== src/UdpOutputV2.antt =====
-- light_engine/outputs/udp_output.py: `UdpOutputV2`, which sends a UDP v2 datagram for each node of the
-- latest frame.
pub mod Accounting
pub mod Delivery
mod Examples
use light_belt.Prelude.{
  ℕ, Bool, true, false, Option, none, some, List, [], ◌∷◌, ◌&&◌, if◌then◌else◌, Error, Result, ok,
  err,
}
use light_belt.Prelude
use light_belt.Prelude.Actions.{
  Action, pure, when, modify, of_result, ◌>>=◌, ◌>>◌, attempt, handle, resume,
}
use light_belt.Outputs.{pop_latest}
use light_belt.Frames.{DigitalNodeFrame, PhysicalFrame}
use light_belt.UdpV2.{UdpV2Packet, post_init, encode}
use light_belt.Transport.{
  World, Sender, count_packet, node_failed, each, finish_frame, send_datagram, open_socket,
  close_socket, enqueue,
}

-- `FLAG_SAFE_STATE if frame.metadata.get("SAFE_STATE") is True else 0`
abbrev pub safe_flags : Bool → ℕ
safe_flags safe_state = if safe_state then 1 else 0

abbrev pub packet_of : PhysicalFrame → DigitalNodeFrame → UdpV2Packet
packet_of frame d = record {
  digital_node_id = d.node_id;
  sequence = frame.sequence;
  pixels = d.pixels;
  flags = safe_flags frame.safe_state;
  message_type = 1;
}

-- `UdpV2Packet(...).encode()`
unfoldable pub encode_node : PhysicalFrame → DigitalNodeFrame → Result (List ℕ)
encode_node frame d = Prelude.◌>>◌ (post_init (packet_of frame d)) (encode (packet_of frame d))

module _ {W : Type 0} (w : World W) where
  -- One round of the loop; the result says whether the node was sent.
  unfoldable pub send_node : PhysicalFrame → DigitalNodeFrame → Action (Sender W) Bool
  send_node frame d =
      attempt
        (do
          packet ← of_result (encode_node frame d)
          send_datagram w (packet, d.address)
          modify count_packet
          pure true)
        (node_failed frame.safe_state)

  unfoldable pub send_popped : Option PhysicalFrame → Action (Sender W) (Unit {0})
  send_popped none = pure tt
  send_popped (some frame) = do
    frame_ok ← each (send_node frame) frame.digital_frames
    finish_frame frame_ok

  unfoldable pub flush_latest : Action (Sender W) (Unit {0})
  flush_latest s =
      let (queue, frame) = pop_latest s.queue in send_popped frame (record s { queue = queue })

  unfoldable pub send_frame : PhysicalFrame → Action (Sender W) (Unit {0})
  send_frame frame = do flush ← enqueue frame; when flush flush_latest

  unfoldable pub open_output : Action (Sender W) (Unit {0})
  open_output = open_socket w

  unfoldable pub close_output : Action (Sender W) (Unit {0})
  close_output = close_socket w true
