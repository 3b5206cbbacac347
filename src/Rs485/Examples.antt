-- ===== src/Rs485/Examples.antt =====
-- rs485_v2.py: tests on small commands.
use light_belt.Prelude.{
  ℕ, ◌+◌, ◌*◌, ◌<◌, ◌≡◌, refl, ◌≤◌, true, none, some, List, [], ◌∷◌, ◌++◌, ok, arith, length, take,
  drop, replicate,
}
use light_belt.Wire.Bytes.{AreBytes}
use light_belt.Rs485.{
  Rs485v2Packet, StreamParser, frame_length, post_init, encode, decode, byte_at, expects,
  crc16_ccitt_false, find_sync, feed,
}
use light_belt.Rs485.Codec.{rs485_decode-encode, rs485_decode_valid}
use light_belt.Rs485.Stream.{idle, feed_total, split_frame_lost}
use light_belt.Rs485.Frames.{frames, sent, feed-frames}

abbrev command_one : Rs485v2Packet
command_one = record {
  node_id = 2;
  sequence = 300;
  r = 10;
  g = 20;
  b = 30;
  warm_white = 40;
  cool_white = 50;
  fade_ms = 1000;
  flags = 0;
  command = 1;
}

abbrev command_two : Rs485v2Packet
command_two = record command_one { sequence = 301; r = 11 }

abbrev command_bytes : List ℕ
command_bytes = 165 ∷ 90 ∷ 2 ∷ 1 ∷ 2 ∷ 44 ∷ 10 ∷ 20 ∷ 30 ∷ 40 ∷ 50 ∷ 3 ∷ 232 ∷ 0 ∷ 204 ∷ 151 ∷ []

encode-command_one : encode command_one ≡ command_bytes
unfolding encode crc16_ccitt_false
encode-command_one = refl

command_bytes-AreBytes : AreBytes command_bytes
command_bytes-AreBytes = omega arith

-- The check value of the checksum, for the digits from 1 to 9.
crc16_check :
    crc16_ccitt_false (0x31 ∷ 0x32 ∷ 0x33 ∷ 0x34 ∷ 0x35 ∷ 0x36 ∷ 0x37 ∷ 0x38 ∷ 0x39 ∷ []) ≡ 0x29B1
unfolding crc16_ccitt_false
crc16_check = refl

rs485_decode-encode_example :
    decode (encode command_one) (some 2) (some 1) ≡ some (record command_one { sequence = 44 })
unfolding post_init
rs485_decode-encode_example = rs485_decode-encode command_one (some 2) (some 1) refl refl refl

decode-command_bytes :
    decode command_bytes (some 2) (some 1) ≡ some (record command_one { sequence = 44 })
unfolding decode crc16_ccitt_false
decode-command_bytes = refl

rs485_decode_valid_example :
    (post_init (record command_one { sequence = 44 }) ≡ ok tt)
    × (expects (some 2) 2 ≡ true)
    × (expects (some 1) 1 ≡ true)
    × (crc16_ccitt_false (take 14 command_bytes)
        ≡ byte_at command_bytes 14 * 256 + byte_at command_bytes 15)
rs485_decode_valid_example =
    rs485_decode_valid command_bytes (some 2) (some 1) (record command_one { sequence = 44 })
      command_bytes-AreBytes decode-command_bytes

feed_total_example :
    (t : StreamParser) × (packets : List Rs485v2Packet) × (feed
        (idle (some 2) 4096 0 0)
        (7 ∷ command_bytes)
      ≡ some (t, packets))
    × (length t.buffer < frame_length)
    × (t.valid_frames ≡ 0 + length packets)
    × ((t.max_buffer ≡ 4096) × (t.expected_node_id ≡ some 2))
feed_total_example = feed_total (idle (some 2) 4096 0 0) (7 ∷ command_bytes)

two_frames-fit : length (frames (command_one ∷ command_two ∷ [])) ≤ 4096
unfolding encode
two_frames-fit = omega arith

feed-frames_example :
    feed (idle (some 2) 4096 0 0) (frames (command_one ∷ command_two ∷ []))
    ≡ some (idle (some 2) 4096 2 0, sent command_one ∷ sent command_two ∷ [])
unfolding post_init
feed-frames_example =
    feed-frames (some 2) 4096 0 0 (command_one ∷ command_two ∷ [])
      ((refl, refl), ((refl, refl), tt)) two_frames-fit

abbrev noise : List ℕ
noise = replicate 15 0

noise-find_sync : find_sync (noise ++ 0xA5 ∷ []) ≡ none
unfolding find_sync
noise-find_sync = refl

split_frame_lost_example :
    (feed (idle (some 2) 4096 0 0) (noise ++ 0xA5 ∷ []) ≡ some (idle (some 2) 4096 0 0, []))
    × (feed (idle (some 2) 4096 0 0) (drop 1 (encode command_one))
        ≡ some (record (idle (some 2) 4096 0 0) { buffer = drop 1 (encode command_one) }, []))
split_frame_lost_example =
    split_frame_lost (some 2) 4096 0 0 noise command_one (omega arith) (omega arith) noise-find_sync
