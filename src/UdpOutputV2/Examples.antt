-- ===== src/UdpOutputV2/Examples.antt =====
-- udp_output.py: tests of `UdpOutputV2` with two nodes; in production the second datagram fails.
use light_belt.Prelude.{
  ℕ, ◌+◌, ◌≡◌, refl, true, false, none, some, List, [], ◌++◌, arith, length, err, ok, value_error,
}
use light_belt.Transport.{Datagram, Sender, is_production, production, memory}
use light_belt.Transport.Rounds.{frames_counted}
use light_belt.Samples.{world, sender, frame, too_bright}
use light_belt.UdpOutputV2.{flush_latest}
use light_belt.UdpOutputV2.Accounting.{flush_counts_frame, flush_raises}
use light_belt.UdpOutputV2.Delivery.{Reads, flush_delivers}

flush_counts_frame_example :
    (frames_counted (flush_latest world (sender production)).1.health ≡ 1)
    × ((flush_latest world (sender production)).1.queue ≡ none)
flush_counts_frame_example = flush_counts_frame world (sender production) frame refl

abbrev dark : Sender ℕ
dark = record (sender production) { queue = some too_bright }

raises : (flush_latest world dark).0 ≡ err value_error
unfolding flush_latest light_belt.UdpOutputV2.send_popped light_belt.Transport.each
    light_belt.UdpOutputV2.send_node light_belt.UdpOutputV2.encode_node light_belt.UdpV2.post_init
    light_belt.Wire.Pixels.pixels_to_payload light_belt.Transport.node_failed
raises = refl

flush_raises_example :
    (too_bright.safe_state ≡ false)
    × (is_production (flush_latest world dark).1.mode ≡ true)
    × ((flush_latest world dark).1.health.healthy ≡ false)
flush_raises_example = flush_raises world dark too_bright value_error refl raises

flush_delivers_example :
    (new : List Datagram) × ((flush_latest world (sender memory)).0 ≡ ok tt)
    × ((flush_latest world (sender memory)).1.sent_datagrams ≡ [] ++ new)
    × ((flush_latest world (sender memory)).1.health.packets_sent ≡ 0 + length new)
    × Reads frame frame.digital_frames new
flush_delivers_example =
    flush_delivers world (sender memory) frame refl refl (omega arith, (omega arith, tt))
