-- ===== src/UdpV3/Reassembler/Examples.antt =====
-- udp_v3.py: tests of the receiver.
use light_belt.Prelude.{◌≡◌, refl, false, Option, none, some, [], ◌∷◌, Result, ok, arith, ap}
use light_belt.Prelude.Sets.{distinct, elem, same_set}
use light_belt.UdpV3.Packet
use light_belt.UdpV3.Packet.{UdpV3Packet, Table, output_post_init}
use light_belt.UdpV3.Packet.Codec.{packet_decode_iff}
use light_belt.UdpV3.Examples.{
  frame_one, frame_two, frame_bytes, next_bytes, frame_one-Constructed, encode-frame_one,
  encode-frame_two, frame_bytes-AreBytes, next_bytes-AreBytes,
}
use light_belt.UdpV3.Reassembler.{
  Reassembler, new, accept, identity_eq, frame_identity, frame_wanted, accept_frame,
  can_start_identity,
}
use light_belt.UdpV3.Reassembler.Total.{after, accept_total, accept-whole}
use light_belt.UdpV3.Reassembler.Answers.{answered_once}

abbrev table_one : Table
table_one = (1, 5, 2) ∷ []

abbrev receiver : Reassembler
receiver = record {
  expected_node_id = 7;
  expected_outputs = table_one;
  active_identity = none;
  buffers = [];
  last_completed_identity = none;
  last_completed_sequence = none;
}

new-receiver : new 7 table_one ≡ ok receiver
unfolding new light_belt.UdpV3.Reassembler.check_rows elem
new-receiver = refl

frame_two-Constructed : Packet.Constructed frame_two
unfolding output_post_init Packet.post_init light_belt.Wire.Pixels.pixels_to_payload distinct
frame_two-Constructed = ((refl, tt), refl)

accept_total_example :
    (found : Option UdpV3Packet) × ((accept (after receiver (frame_bytes ∷ [])) frame_bytes).0
      ≡ ok found)
accept_total_example =
    accept_total 7 table_one receiver (frame_bytes ∷ []) frame_bytes new-receiver
      (frame_bytes-AreBytes, tt) frame_bytes-AreBytes

decode_one : Packet.decode frame_bytes (frame_wanted receiver) ≡ some frame_one
unfolding Packet.table_has same_set
decode_one =
    (packet_decode_iff frame_bytes (frame_wanted receiver) frame_one frame_bytes-AreBytes).1
      (record {
        constructed = frame_one-Constructed;
        encoded = encode-frame_one;
        fits = omega arith;
        wanted_node = refl;
        recent = refl;
        rows = (refl, tt);
        complete = refl;
      })

-- The receiver after the first frame.
abbrev answered : Reassembler
answered = record receiver {
  last_completed_identity = some (frame_identity frame_one);
  last_completed_sequence = some 1;
}

accept-first : accept receiver frame_bytes ≡ (ok (some frame_one), answered)
unfolding accept_frame can_start_identity light_belt.UdpV3.Reassembler.mark_complete
accept-first = rw (accept-whole receiver frame_bytes frame_one decode_one)

decode_two : Packet.decode next_bytes (frame_wanted answered) ≡ some frame_two
unfolding Packet.table_has same_set
decode_two =
    (packet_decode_iff next_bytes (frame_wanted answered) frame_two next_bytes-AreBytes).1 (record {
      constructed = frame_two-Constructed;
      encoded = encode-frame_two;
      fits = omega arith;
      wanted_node = refl;
      recent = refl;
      rows = (refl, tt);
      complete = refl;
    })

accept-second : (accept answered next_bytes).0 ≡ ok (some frame_two)
unfolding accept_frame can_start_identity light_belt.UdpV3.Sequence.is_newer_sequence
accept-second = rw (accept-whole answered next_bytes frame_two decode_two)

answered_once_example :
    (identity_eq (frame_identity frame_two) (frame_identity frame_one) ≡ false)
    × ((accept receiver frame_bytes).1.active_identity ≡ none)
    × ((accept receiver frame_bytes).1.buffers ≡ [])
answered_once_example =
    answered_once receiver frame_bytes next_bytes frame_one frame_two
      (ap (λ (x : Result (Option UdpV3Packet) × Reassembler). x.0) accept-first)
      (rw accept-first accept-second)
