-- ===== src/Rs485/Frames.antt =====
-- rs485_v2.py: a clean stream of commands is parsed to the commands that were sent.
use light_belt.Prelude.{
  ℕ, zero, suc, ◌+◌, ◌%◌, ◌≤◌, ◌<◌, ◌≡◌, refl, ap, true, Option, none, some, List, [], ◌∷◌, ◌++◌,
  map, append-nil, append_assoc, ltb-false, arith, length, length-append, take-append, drop-append,
  All, ok,
}
use light_belt.Rs485.{
  Rs485v2Packet, frame_length, post_init, encode, expects, StreamParser, Round, find_sync,
  candidate, synced, round, parse, feed,
}
use light_belt.Rs485.Codec.{rs485_decode-encode}
use light_belt.Rs485.Stream.{idle, parse-step, parse-short, trim-le}

-- The bytes of the commands, one after the other.
abbrev pub frames : List Rs485v2Packet → List ℕ
frames [] = []
frames (p ∷ ps) = encode p ++ frames ps

-- A command as the wire carries it.
abbrev pub sent : Rs485v2Packet → Rs485v2Packet
sent p = record p { sequence = p.sequence % 256 }

pub length-encode : (p : Rs485v2Packet) → length (encode p) ≡ frame_length
unfolding encode
length-encode p = refl

find_sync-encode : (p : Rs485v2Packet) (rest : List ℕ) → find_sync (encode p ++ rest) ≡ some 0
unfolding encode find_sync
find_sync-encode p rest = refl

-- The commands that the parser's node may hear.
abbrev pub IsFor : Option ℕ → Rs485v2Packet → Type 0
IsFor node p = (post_init p ≡ ok tt) × (expects node p.node_id ≡ true)

abbrev with_buffer : Option ℕ → ℕ → ℕ → ℕ → List ℕ → StreamParser
with_buffer node limit valid invalid buffer = record (idle node limit valid invalid) {
  buffer = buffer;
}

module _ (node : Option ℕ) (limit invalid : ℕ) where
  round-encode :
      (valid : ℕ) (p : Rs485v2Packet) (rest : List ℕ)
      → IsFor node p
      → round (with_buffer node limit valid invalid (encode p ++ rest))
        ≡ (with_buffer node limit (valid + 1) invalid rest, some (sent p), true)
  unfolding round synced candidate
  round-encode valid p rest (h, n) = rw (
    find_sync-encode p rest,
    round,
    ltb-false (length (encode p ++ rest)) frame_length
        (omega (arith, length-append (encode p) rest, length-encode p)),
    take-append frame_length (encode p) rest (length-encode p),
    rs485_decode-encode p node none h n refl,
    drop-append frame_length (encode p) rest (length-encode p),
  )

  parse-frames :
      (ps packets : List Rs485v2Packet) (fuel valid : ℕ)
      → All (IsFor node) ps
      → length (frames ps) < fuel
      → parse fuel (with_buffer node limit valid invalid (frames ps)) packets
        ≡ some (with_buffer node limit (valid + length ps) invalid [], packets ++ map sent ps)
  parse-frames ps packets zero valid h f = absurd (omega arith)
  parse-frames [] packets (suc fuel) valid h f = rw (
    parse-short fuel (with_buffer node limit valid invalid []) packets refl,
    append-nil packets,
    let e : valid + 0 ≡ valid = omega arith in e,
  )
  parse-frames (p ∷ ps) packets (suc fuel) valid (h, hs) f =
      let long : frame_length ≤ length (encode p ++ frames ps) =
        omega (arith, length-append (encode p) (frames ps), length-encode p) in
      let taken = round-encode valid p (frames ps) h in
      rw (
        parse-step fuel (with_buffer node limit valid invalid (encode p ++ frames ps)) packets
            (ltb-false (length (encode p ++ frames ps)) frame_length long)
            (ap (λ (r : Round). r.2) taken),
        taken,
        parse-frames ps (packets ++ sent p ∷ []) fuel (valid + 1) hs
            (omega (arith, length-append (encode p) (frames ps), length-encode p)),
        append_assoc packets (sent p ∷ []) (map sent ps),
        let e : valid + 1 + length ps ≡ valid + suc (length ps) = omega arith in e,
      )

-- Valid commands for the parser's node, sent without noise and fed at once to a parser with nothing
-- in its buffer, which has room for them, come out as they were sent, in order, each with the low
-- byte of its sequence; all are counted, and the buffer is empty after.
pub feed-frames :
    (node : Option ℕ) (limit valid invalid : ℕ) (ps : List Rs485v2Packet)
    → All (IsFor node) ps
    → length (frames ps) ≤ limit
    → feed (idle node limit valid invalid) (frames ps)
      ≡ some (idle node limit (valid + length ps) invalid, map sent ps)
unfolding feed
feed-frames node limit valid invalid ps h fits =
    rw (trim-le limit (frames ps) fits)
      (parse-frames node limit invalid ps [] (suc (length (frames ps))) valid h (omega arith))
