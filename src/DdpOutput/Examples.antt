-- ===== src/DdpOutput/Examples.antt =====
-- ddp_output.py: tests of `DdpOutput` with two nodes; in production the second datagram fails.
use light_belt.Prelude.{◌+◌, ◌≡◌, refl, none, List, [], ◌++◌, length, ok}
use light_belt.Transport.{Datagram, production, memory}
use light_belt.Transport.Rounds.{frames_counted}
use light_belt.Samples.{world, sender, frame}
use light_belt.DdpOutput.{flush_latest}
use light_belt.DdpOutput.Accounting.{ddp_flush_counts_frame}
use light_belt.DdpOutput.Delivery.{Receives, ddp_flush_delivers}

ddp_flush_counts_frame_example :
    (frames_counted (flush_latest world 4048 (sender production)).1.health ≡ 1)
    × ((flush_latest world 4048 (sender production)).1.queue ≡ none)
ddp_flush_counts_frame_example = ddp_flush_counts_frame world 4048 (sender production) frame refl

ddp_flush_delivers_example :
    (new : List Datagram) × ((flush_latest world 4048 (sender memory)).0 ≡ ok tt)
    × ((flush_latest world 4048 (sender memory)).1.sent_datagrams ≡ [] ++ new)
    × ((flush_latest world 4048 (sender memory)).1.health.packets_sent ≡ 0 + length new)
    × Receives 4048 frame.digital_frames new
ddp_flush_delivers_example = ddp_flush_delivers world 4048 (sender memory) frame refl refl
