-- ===== src/Ddp/Packets.antt =====
-- ddp_output.py: the packets that `encode_ddp_packets` makes of a frame.
use light_belt.Prelude.{
  ℕ, zero, suc, ◌+◌, ◌-◌, ◌%◌, ◌≤◌, ◌<◌, ◌≡◌, sym, ap, ◌∙◌, Bool, true, false, some, ◌==◌, List, [],
  ◌∷◌, ◌++◌, map, arith, inl, inr, Bool-cases, is_empty, min, ltb, leb, le→leb, leb-false, ltb→lt,
  ltb-false→le, length, length-take, take, drop, drop_all, drop-drop, take-append-drop, get_or,
  join, All, ok,
}
use light_belt.Prelude.Bits.{test_bit}
use light_belt.Wire.Pixels.{Pixel}
use light_belt.Ddp.{
  frame_payload, channels, first_seq, next_seq, packet_at, packet_loop, encode_ddp_packets,
}

-- `DDP_HEADER_LEN`
abbrev pub ddp_header_len : ℕ
ddp_header_len = 10

-- The first byte's lowest bit is the PUSH flag.
abbrev pub is_pushed : List ℕ → Bool
is_pushed packet = test_bit (get_or packet 0 0) 0

-- The PUSH flag is on the last packet and on no other.
abbrev pub PushedLast : List (List ℕ) → Type 0
PushedLast [] = Unit {0}
PushedLast (packet ∷ []) = is_pushed packet ≡ true
PushedLast (packet ∷ next ∷ packets) = (is_pushed packet ≡ false) × PushedLast (next ∷ packets)

-- The sequence number is one of 1 to 15.
abbrev pub IsNumbered : List ℕ → Type 0
IsNumbered packet = (1 ≤ get_or packet 1 0) × (get_or packet 1 0 ≤ 15)

abbrev pub contents : List (List ℕ) → List ℕ
contents packets = join (map (drop ddp_header_len) packets)

-- What is sent of a payload from an offset on.
pub record Sent (payload : List ℕ) (limit offset : ℕ) (packets : List (List ℕ)) : Type 0 where
  pub whole : contents packets ≡ drop offset payload
  pub sizes : All (λ packet. length packet ≤ ddp_header_len + limit) packets
  pub numbered : All IsNumbered packets
  pub pushed : PushedLast packets
  pub ended : is_empty packets ≡ leb (length payload) offset

PushedLast-cons :
    (packet : List ℕ) (packets : List (List ℕ))
    → is_pushed packet ≡ is_empty packets
    → PushedLast packets
    → PushedLast (packet ∷ packets)
PushedLast-cons packet [] e h = e
PushedLast-cons packet (next ∷ packets) e h = (e, h)

is_pushed-packet_at :
    (payload : List ℕ) (seq offset next : ℕ)
    → is_pushed (packet_at payload seq offset next) ≡ leb (length payload) next
unfolding packet_at
is_pushed-packet_at payload seq offset next = elim (Bool-cases (leb (length payload) next)) [
  | inl e ↦ rw e
  | inr e ↦ rw e
]

module _ (payload : List ℕ) (limit : ℕ) (pos : 0 < limit) where
  abbrev next_of : ℕ → ℕ
  next_of offset = min (offset + limit) (length payload)

  module _ (offset seq : ℕ) (packets : List (List ℕ)) (before : offset < length payload)
      (range : (1 ≤ seq) × (seq ≤ 15)) (rest : Sent payload limit (next_of offset) packets) where
    abbrev chunk : List ℕ
    chunk = take (next_of offset - offset) (drop offset payload)

    chunk_whole : chunk ++ drop (next_of offset) payload ≡ drop offset payload
    chunk_whole =
        ap (◌++◌ chunk) (
          ap (λ (n : ℕ). drop n payload)
            (let e : next_of offset ≡ offset + (next_of offset - offset) = omega arith in e)
          ∙ sym (drop-drop (next_of offset - offset) offset payload))
        ∙ take-append-drop (next_of offset - offset) (drop offset payload)

    Sent-cons : Sent payload limit offset (packet_at payload seq offset (next_of offset) ∷ packets)
    Sent-cons = record {
      whole = unfold packet_at in (ap (◌++◌ chunk) rest.whole ∙ chunk_whole);
      sizes = (
        unfold packet_at in
            omega (arith, length-take (next_of offset - offset) (drop offset payload)),
        rest.sizes,
      );
      numbered = ((unfold packet_at in range), rest.numbered);
      pushed =
          PushedLast-cons (packet_at payload seq offset (next_of offset)) packets
            (is_pushed-packet_at payload seq offset (next_of offset) ∙ sym rest.ended) rest.pushed;
      ended = sym (leb-false (length payload) offset before);
    }

  next_seq-range : (seq : ℕ) → (1 ≤ next_seq seq) × (next_seq seq ≤ 15)
  next_seq-range seq = ground arith

  packet_loop_total :
      (fuel offset seq : ℕ)
      → length payload < fuel + offset
      → 0 < fuel
      → (1 ≤ seq) × (seq ≤ 15)
      → (packets : List (List ℕ)) × (packet_loop fuel payload limit offset seq ≡ some packets)
        × Sent payload limit offset packets
  unfolding packet_loop
  packet_loop_total zero offset seq h k range = absurd (omega arith)
  packet_loop_total (suc fuel) offset seq h k range =
      elim (Bool-cases (ltb offset (length payload))) [
        | inr e ↦
            let long = ltb-false→le offset (length payload) e in
            (
              [],
              rw e,
              record {
                whole = sym (drop_all offset payload long);
                sizes = tt;
                numbered = tt;
                pushed = tt;
                ended = sym (le→leb (length payload) offset long);
              },
            )
        | inl e ↦
            let before = ltb→lt offset (length payload) e in
            let (packets, made, rest) =
              packet_loop_total fuel (next_of offset) (next_seq seq) (omega arith) (omega arith)
                (next_seq-range seq) in
            (
              packet_at payload seq offset (next_of offset) ∷ packets,
              rw (e, made),
              Sent-cons offset seq packets before range rest,
            )
      ]

first_seq-range : (sequence : ℕ) → (1 ≤ first_seq sequence) × (first_seq sequence ≤ 15)
first_seq-range sequence = ground arith

frame_payload-some : (pixels : List Pixel) → 0 < length (frame_payload pixels)
unfolding frame_payload channels
frame_payload-some [] = omega arith
frame_payload-some (pixel ∷ pixels) = omega arith

no_larger :
    (limit wider : ℕ) (packets : List (List ℕ))
    → limit ≤ wider
    → All (λ packet. length packet ≤ ddp_header_len + limit) packets
    → All (λ packet. length packet ≤ ddp_header_len + wider) packets
no_larger limit wider [] h hs = tt
no_larger limit wider (packet ∷ packets) h hs =
    (omega (arith, hs.0), no_larger limit wider packets h hs.1)

limit-tests :
    (max_channels : ℕ)
    → 3 ≤ max_channels
    → ((max_channels == 0) ≡ false) × ((max_channels - max_channels % 3 == 0) ≡ false)
limit-tests max_channels h = (ground arith, ground arith)

-- With room for a pixel at least, the loop ends and the function returns packets, at least one.
-- Behind their headers they hold the frame's payload, cut in order; none has more channels than the
-- limit; the last one and no other has the PUSH flag; and the sequence numbers are 1 to 15.
pub encode_ddp_packets_total :
    (pixels : List Pixel) (sequence max_channels : ℕ)
    → 3 ≤ max_channels
    → (packets : List (List ℕ)) × (encode_ddp_packets pixels sequence max_channels
        ≡ ok (some packets))
      × (contents packets ≡ frame_payload pixels)
      × (is_empty packets ≡ false)
      × All (λ packet. length packet ≤ ddp_header_len + max_channels) packets
      × PushedLast packets
      × All IsNumbered packets
unfolding encode_ddp_packets
encode_ddp_packets_total pixels sequence max_channels h =
    let limit : ℕ = max_channels - max_channels % 3 in
    let payload : List ℕ = frame_payload pixels in
    let (packets, made, sent) =
      packet_loop_total payload limit (omega arith) (suc (length payload)) 0 (first_seq sequence)
        (omega arith) (omega arith) (first_seq-range sequence) in
    let (positive, room) = limit-tests max_channels h in
    (
      packets,
      rw (positive, room, made),
      sent.whole,
      sent.ended ∙ leb-false (length payload) 0 (frame_payload-some pixels),
      no_larger limit max_channels packets (omega arith) sent.sizes,
      sent.pushed,
      sent.numbered,
    )
