-- ===== src/UdpOutputV3/Examples.antt =====
-- udp_output.py: tests of `UdpOutputV3` in production, where the second datagram fails.
use light_belt.Prelude.{◌≡◌, refl, none, ok, inl, arith}
use light_belt.Transport.{production, memory}
use light_belt.Transport.Rounds.{frames_counted}
use light_belt.Samples.{world, scheduled, frame}
use light_belt.UdpOutputV3.{scheduled_apply_at}
use light_belt.UdpOutputV3.Flush.{flush_latest}
use light_belt.UdpOutputV3.Counting.{scheduled_flush_counts_frame}
use light_belt.UdpOutputV3.Beacons.{Announced}
use light_belt.UdpOutputV3.Schedule.{Covered, scheduled_apply_at-Covered}

scheduled_flush_counts_frame_example :
    (frames_counted (flush_latest world (scheduled production)).1.base.health ≡ 1)
    × ((flush_latest world (scheduled production)).1.base.queue ≡ none)
scheduled_flush_counts_frame_example =
    scheduled_flush_counts_frame world (scheduled production) frame refl (inl refl)

-- The first reading is at 2 ms, and the second address gets its beacon at 3 ms.
finds_time :
    scheduled_apply_at world (scheduled memory)
    ≡ (ok 8000, (scheduled_apply_at world (scheduled memory)).1)
unfolding scheduled_apply_at light_belt.UdpOutputV3.read_monotonic_us
    light_belt.UdpOutputV3.check_clock light_belt.UdpOutputV3.beacons_if_due
    light_belt.UdpOutputV3.send_clock_beacon_round light_belt.UdpOutputV3.send_beacons
    light_belt.UdpOutputV3.beacon_time light_belt.UdpOutputV3.send_clock_beacon
    light_belt.UdpOutputV3.encode_beacon light_belt.UdpV3.Beacon.encode
    light_belt.UdpV3.Beacon.post_init light_belt.Wire.Struct.pack light_belt.Wire.Crc.with_crc
    light_belt.Wire.Crc.crc32 light_belt.Wire.Bytes.be_bytes light_belt.Transport.send_datagram
    light_belt.UdpOutputV3.add_lead light_belt.UdpOutputV3.beacon_failed
finds_time = refl

scheduled_apply_at-Covered_example :
    Covered (scheduled memory) 8000 (scheduled_apply_at world (scheduled memory)).1
    × Announced world (scheduled memory) (scheduled_apply_at world (scheduled memory)).1
scheduled_apply_at-Covered_example =
    scheduled_apply_at-Covered world (scheduled memory)
      (scheduled_apply_at world (scheduled memory)).1 8000 refl (omega arith) finds_time
