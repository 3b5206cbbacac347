-- ===== src/Rs485/Stream.antt =====
-- rs485_v2.py: the stream parser ends on every input, keeps less than a frame, and counts what it
-- returns; and the frames that it loses.
use light_belt.Prelude.{
  ℕ, zero, suc, ◌+◌, ◌≤◌, ◌<◌, ◌≡◌, refl, sym, ap, ◌∙◌, true, false, Option, none, some, List, [],
  ◌∷◌, ◌++◌, append-nil, append_assoc, ltb, ltb-false, lt→ltb, ltb→lt, ltb-false→le, arith,
  Bool-cases, Option-cases, inl, inr, length, length-append, length-drop, take, drop,
}
use light_belt.Rs485.{
  Rs485v2Packet, frame_length, decode, StreamParser, find_sync, encode, trim, Round, candidate,
  synced, round, add_found, parse, feed,
}

-- One round that goes on shortens the buffer, and one that stops leaves less than a frame.
record Progress (s : StreamParser) (r : Round) : Type 0 where
  shorter : r.2 ≡ true → length r.0.buffer < length s.buffer
  stopped : r.2 ≡ false → (length r.0.buffer < frame_length) × (r.1 ≡ none)
  counted : r.0.valid_frames ≡ s.valid_frames + length (add_found r.1 [])
  kept : (r.0.max_buffer ≡ s.max_buffer) × (r.0.expected_node_id ≡ s.expected_node_id)

candidate-Progress :
    (s : StreamParser) (o : Option Rs485v2Packet)
    → frame_length ≤ length s.buffer
    → Progress s (candidate s o)
unfolding candidate
candidate-Progress s none h = record {
  shorter = λ e. omega (arith, length-drop 1 s.buffer);
  stopped = λ e. cc;
  counted = omega arith;
  kept = (refl, refl);
}
candidate-Progress s (some p) h = record {
  shorter = λ e. omega (arith, length-drop frame_length s.buffer);
  stopped = λ e. cc;
  counted = omega arith;
  kept = (refl, refl);
}

synced-Progress : (s : StreamParser) → Progress s (synced s)
unfolding synced
synced-Progress s = elim (Bool-cases (ltb (length s.buffer) frame_length)) [
  | inl e ↦ rw e (record {
    shorter = λ f. cc;
    stopped = λ f. (ltb→lt _ _ e, refl);
    counted = omega arith;
    kept = (refl, refl);
  })
  | inr e ↦ rw e (
      candidate-Progress s (decode (take frame_length s.buffer) s.expected_node_id none)
        (ltb-false→le _ _ e))
]

-- A shorter buffer at the start of the round only helps.
widen :
    (s t : StreamParser) (r : Round)
    → length t.buffer ≤ length s.buffer
    → t.valid_frames ≡ s.valid_frames
    → t.max_buffer ≡ s.max_buffer
    → t.expected_node_id ≡ s.expected_node_id
    → Progress t r
    → Progress s r
widen s t r le same limit node p = record {
  shorter = λ e. omega (arith, p.shorter e);
  stopped = p.stopped;
  counted = omega (arith, p.counted);
  kept = (p.kept.0 ∙ limit, p.kept.1 ∙ node);
}

round-Progress : (s : StreamParser) → Progress s (round s)
unfolding round
round-Progress s = elim (Option-cases (find_sync s.buffer)) [
  | inl e ↦
      rw (e, round)
        (record {
          shorter = λ f. cc;
          stopped = λ f. (omega arith, refl);
          counted = omega arith;
          kept = (refl, refl);
        })
  | inr (i, e) ↦
      let t : StreamParser = record s { buffer = drop i s.buffer } in
      rw (e, round)
        (widen s t (synced t) (omega (arith, length-drop i s.buffer)) refl refl refl
          (synced-Progress t))
]

-- What a run of the loop returns.
record Parsed (s : StreamParser) (packets : List Rs485v2Packet)
    (r : Option (StreamParser × List Rs485v2Packet)) : Type 0 where
  parser : StreamParser
  found : List Rs485v2Packet
  result : r ≡ some (parser, packets ++ found)
  short : length parser.buffer < frame_length
  counted : parser.valid_frames ≡ s.valid_frames + length found
  kept : (parser.max_buffer ≡ s.max_buffer) × (parser.expected_node_id ≡ s.expected_node_id)

add_found-append :
    (o : Option Rs485v2Packet) (packets : List Rs485v2Packet)
    → add_found o packets ≡ packets ++ add_found o []
add_found-append none packets = sym (append-nil packets)
add_found-append (some p) packets = refl

pub parse-step :
    (fuel : ℕ) (s : StreamParser) (packets : List Rs485v2Packet)
    → ltb (length s.buffer) frame_length ≡ false
    → (round s).2 ≡ true
    → parse (suc fuel) s packets ≡ parse fuel (round s).0 (add_found (round s).1 packets)
unfolding parse
parse-step fuel s packets long more = rw (long, more)

parse-stop :
    (fuel : ℕ) (s : StreamParser) (packets : List Rs485v2Packet)
    → ltb (length s.buffer) frame_length ≡ false
    → (round s).2 ≡ false
    → parse (suc fuel) s packets ≡ some ((round s).0, add_found (round s).1 packets)
unfolding parse
parse-stop fuel s packets long more = rw (long, more)

pub parse-short :
    (fuel : ℕ) (s : StreamParser) (packets : List Rs485v2Packet)
    → ltb (length s.buffer) frame_length ≡ true
    → parse (suc fuel) s packets ≡ some (s, packets)
unfolding parse
parse-short fuel s packets short = rw short

add_found_assoc :
    (o : Option Rs485v2Packet) (packets found : List Rs485v2Packet)
    → add_found o packets ++ found ≡ packets ++ (add_found o [] ++ found)
add_found_assoc none packets found = refl
add_found_assoc (some p) packets found = append_assoc packets (p ∷ []) found

-- A round in front of a run.
extend :
    (s : StreamParser) (r : Round) (packets : List Rs485v2Packet)
    (x : Option (StreamParser × List Rs485v2Packet))
    → Progress s r
    → Parsed r.0 (add_found r.1 packets) x
    → Parsed s packets x
extend s r packets x p q = record {
  parser = q.parser;
  found = add_found r.1 [] ++ q.found;
  result =
      q.result
      ∙ ap (λ (l : List Rs485v2Packet). some (q.parser, l)) (add_found_assoc r.1 packets q.found);
  short = q.short;
  counted = omega (arith, q.counted, p.counted, length-append (add_found r.1 []) q.found);
  kept = (q.kept.0 ∙ p.kept.0, q.kept.1 ∙ p.kept.1);
}

parse_total :
    (fuel : ℕ) (s : StreamParser) (packets : List Rs485v2Packet)
    → length s.buffer < fuel
    → Parsed s packets (parse fuel s packets)
parse_total zero s packets h = absurd (omega arith)
parse_total (suc fuel) s packets h =
    let p = round-Progress s in
    elim (Bool-cases (ltb (length s.buffer) frame_length)) [
      | inl e ↦ record {
        parser = s;
        found = [];
        result =
            parse-short fuel s packets e
            ∙ ap (λ (l : List Rs485v2Packet). some (s, l)) (sym (append-nil packets));
        short = ltb→lt _ _ e;
        counted = omega arith;
        kept = (refl, refl);
      }
      | inr e ↦ elim (Bool-cases (round s).2) [
        | inl more ↦ rw (parse-step fuel s packets e more) (
            extend s (round s) packets _ p (
              parse_total fuel (round s).0 (add_found (round s).1 packets)
                (omega (arith, p.shorter more))))
        | inr done ↦ record {
          parser = (round s).0;
          found = add_found (round s).1 [];
          result = rw (parse-stop fuel s packets e done, add_found-append (round s).1 packets);
          short = (p.stopped done).0;
          counted = p.counted;
          kept = p.kept;
        }
      ]
    ]

-- Whatever bytes are fed, the loop ends: `feed` returns, keeps fewer bytes than a frame has, counts
-- each packet that it returns as valid, and keeps its settings.
pub feed_total :
    (s : StreamParser) (bytes : List ℕ)
    → (t : StreamParser) × (packets : List Rs485v2Packet) × (feed s bytes ≡ some (t, packets))
      × (length t.buffer < frame_length)
      × (t.valid_frames ≡ s.valid_frames + length packets)
      × ((t.max_buffer ≡ s.max_buffer) × (t.expected_node_id ≡ s.expected_node_id))
unfolding feed
feed_total s bytes =
    let buffer = trim s.max_buffer (s.buffer ++ bytes) in
    let r = parse_total (suc (length buffer)) (record s { buffer = buffer }) [] (omega arith) in
    (r.parser, r.found, r.result, r.short, r.counted, r.kept)

-- A parser with nothing in its buffer.
abbrev pub idle : Option ℕ → ℕ → ℕ → ℕ → StreamParser
idle node limit valid invalid = record {
  buffer = [];
  expected_node_id = node;
  max_buffer = limit;
  valid_frames = valid;
  invalid_frames = invalid;
}

pub trim-le : (limit : ℕ) (buffer : List ℕ) → length buffer ≤ limit → trim limit buffer ≡ buffer
trim-le limit buffer h = rw (ltb-false limit (length buffer) h)

round-no_sync :
    (s : StreamParser)
    → find_sync s.buffer ≡ none
    → round s ≡ (record s { buffer = [] }, none, false)
unfolding round
round-no_sync s e = rw (e, round)

module _ (s : StreamParser) (bytes : List ℕ)
    (fits : length (s.buffer ++ bytes) ≤ s.max_buffer) where
  feed-no_sync :
      frame_length ≤ length (s.buffer ++ bytes)
      → find_sync (s.buffer ++ bytes) ≡ none
      → feed s bytes ≡ some (record s { buffer = [] }, [])
  unfolding feed parse
  feed-no_sync long e = rw (
    trim-le s.max_buffer (s.buffer ++ bytes) fits,
    ltb-false (length (s.buffer ++ bytes)) frame_length long,
    round-no_sync (record s { buffer = s.buffer ++ bytes }) e,
  )

  feed-short :
      length (s.buffer ++ bytes) < frame_length
      → feed s bytes ≡ some (record s { buffer = s.buffer ++ bytes }, [])
  unfolding feed parse
  feed-short short = rw (
    trim-le s.max_buffer (s.buffer ++ bytes) fits,
    lt→ltb (length (s.buffer ++ bytes)) frame_length short,
  )

length-tail : (p : Rs485v2Packet) → length (drop 1 (encode p)) ≡ 15
unfolding encode
length-tail p = refl

-- A frame is lost where at least 15 bytes of noise without a sync pair, which fit the buffer, are
-- fed with its first byte behind them: `feed` drops the whole buffer, that byte too, and the rest
-- of the frame, fed next, gives no packet and waits in the buffer.
pub split_frame_lost :
    (node : Option ℕ) (limit valid invalid : ℕ) (noise : List ℕ) (p : Rs485v2Packet)
    → 15 ≤ length noise
    → length noise < limit
    → find_sync (noise ++ 0xA5 ∷ []) ≡ none
    → (feed (idle node limit valid invalid) (noise ++ 0xA5 ∷ [])
        ≡ some (idle node limit valid invalid, []))
      × (feed (idle node limit valid invalid) (drop 1 (encode p))
          ≡ some (record (idle node limit valid invalid) { buffer = drop 1 (encode p) }, []))
split_frame_lost node limit valid invalid noise p long fits no_sync = (
  feed-no_sync (idle node limit valid invalid) (noise ++ 0xA5 ∷ [])
      (omega (arith, length-append noise (0xA5 ∷ [])))
      (omega (arith, length-append noise (0xA5 ∷ []))) no_sync,
  feed-short (idle node limit valid invalid) (drop 1 (encode p)) (omega (arith, length-tail p))
      (omega (arith, length-tail p)),
)
