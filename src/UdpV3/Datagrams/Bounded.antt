-- ===== src/UdpV3/Datagrams/Bounded.antt =====
-- udp_v3.py: the packetizer never fails on a limit that leaves room for a pixel, and no datagram
-- is longer than the limit.
use light_belt.Prelude.{
  ℕ, ◌+◌, ◌*◌, ◌/◌, ◌≤◌, ◌<◌, ◌≡◌, refl, ◌⊎◌, inl, inr, List, [], ◌∷◌, ◌++◌, arith, leb, le→leb,
  leb→le, leb-false→lt, Bool-cases, length, All, All-take, All-drop, take, drop, length-take,
  length-drop, ok, ◌>>=◌, if◌then◌else◌,
}
use light_belt.Prelude.Sets.{elem, distinct}
use light_belt.Wire.Crc.{crc_length}
use light_belt.Wire.Pixels.{IsPixel, max_uint16, max_udp_payload}
use light_belt.UdpV3.Frame.{header_length}
use light_belt.UdpV3.Packet
use light_belt.UdpV3.Packet.{UdpV3Output, UdpV3Packet, output_post_init, Constructed}
use light_belt.UdpV3.Packet.Outputs.{IsValidOutput, output_post_init→IsValidOutput}
use light_belt.UdpV3.Packet.Total.{frame_length, packet_encode_total}
use light_belt.UdpV3.Chunk
use light_belt.UdpV3.Chunk.{UdpV3Chunk, UdpV3ChunkPacket, chunk_length}
use light_belt.UdpV3.Chunk.Ranges.{IsValidChunk, IsValidChunk→chunk_post_init}
use light_belt.UdpV3.Chunk.Total.{chunk_encode_total}
use light_belt.UdpV3.Datagrams.{
  range_step, complete_payload_length, chunk_at, chunk_packet, encode_chunk_at, encode_offsets,
  encode_in_chunks, available_rgb_bytes, chunked, encode_udp_v3_frame_datagrams,
}
use light_belt.UdpV3.Datagrams.Plan.{range_step-lt, chunks_at, chunk_plan}

-- The datagrams are the encodings of packets of one chunk each, and within the limit.
abbrev pub Sent : UdpV3Packet → ℕ → List UdpV3Chunk → List (List ℕ) → Type 0
Sent p limit [] [] = Unit {0}
Sent p limit [] (d ∷ ds) = ⊥
Sent p limit (c ∷ cs) [] = ⊥
Sent p limit (c ∷ cs) (d ∷ ds) =
    (Chunk.Constructed (chunk_packet p c)
      × (Chunk.encode (chunk_packet p c) ≡ ok d)
      × (length d ≤ limit))
    × Sent p limit cs ds

Sent-append :
    (p : UdpV3Packet) (limit : ℕ) (cs : List UdpV3Chunk) (ds : List (List ℕ))
    (cs' : List UdpV3Chunk) (ds' : List (List ℕ))
    → Sent p limit cs ds
    → Sent p limit cs' ds'
    → Sent p limit (cs ++ cs') (ds ++ ds')
Sent-append p limit [] [] cs' ds' h k = k
Sent-append p limit [] (d ∷ ds) cs' ds' h k = absurd h
Sent-append p limit (c ∷ cs) [] cs' ds' h k = absurd h
Sent-append p limit (c ∷ cs) (d ∷ ds) cs' ds' h k = (h.0, Sent-append p limit cs ds cs' ds' h.1 k)

-- A packet of one chunk of a packet that Python can hold.
chunk_packet-post_init :
    (p : UdpV3Packet) (c : UdpV3Chunk)
    → Packet.post_init p ≡ ok tt
    → chunk_length + length c.pixels * 3 ≤ max_uint16
    → Chunk.post_init (chunk_packet p c) ≡ ok tt
unfolding Packet.post_init Chunk.post_init distinct elem
chunk_packet-post_init p c h small = ground arith

module _ (p : UdpV3Packet) (hp : Packet.post_init p ≡ ok tt) (limit n : ℕ) (pos : 0 < n)
    (room : header_length + chunk_length + crc_length + n * 3 ≤ limit)
    (datagram : limit ≤ max_udp_payload) (o : UdpV3Output) (v : IsValidOutput o) where
  piece_bounds :
      (offset : ℕ)
      → offset < length o.pixels
      → (0 < length (take n (drop offset o.pixels)))
        × (length (take n (drop offset o.pixels)) ≤ n)
        × (offset + length (take n (drop offset o.pixels)) ≤ length o.pixels)
  piece_bounds offset h =
      omega (arith, length-take n (drop offset o.pixels), length-drop offset o.pixels)

  chunk_at-IsValidChunk :
      (offset : ℕ) → offset < length o.pixels → IsValidChunk (chunk_at o n offset)
  chunk_at-IsValidChunk offset h =
      let (some_pixel, at_most, inside) = piece_bounds offset h in
      record {
        id = v.id;
        gpio = v.gpio;
        total = v.count;
        count = (some_pixel, omega arith);
        range = inside;
        channels = All-take IsPixel n _ (All-drop IsPixel offset o.pixels v.channels);
      }

  encode_chunk_at-ok :
      (offset : ℕ)
      → offset < length o.pixels
      → (d : List ℕ) × (encode_chunk_at p limit n o offset ≡ ok d)
        × Sent p limit (chunk_at o n offset ∷ []) (d ∷ [])
  unfolding encode_chunk_at
  encode_chunk_at-ok offset h =
      let (_, at_most, _) = piece_bounds offset h in
      let built =
        IsValidChunk→chunk_post_init (chunk_at o n offset) (chunk_at-IsValidChunk offset h) in
      let packed = chunk_packet-post_init p (chunk_at o n offset) hp (omega arith) in
      let (d, encoded, len, _) =
        chunk_encode_total (chunk_packet p (chunk_at o n offset)) ((built, tt), packed) in
      (
        d,
        rw (built, packed, encoded, le→leb (length d) limit (omega arith)),
        ((((built, tt), packed), encoded, omega arith), tt),
      )

  encode_offsets-ok :
      (offsets : List ℕ)
      → All (λ offset. offset < length o.pixels) offsets
      → (ds : List (List ℕ)) × (encode_offsets p limit n o offsets ≡ ok ds)
        × Sent p limit (chunks_at o n offsets) ds
  unfolding encode_offsets
  encode_offsets-ok [] h = ([], refl, tt)
  encode_offsets-ok (offset ∷ offsets) (h, hs) =
      let (d, encoded, sent) = encode_chunk_at-ok offset h in
      let (ds, others, rest) = encode_offsets-ok offsets hs in
      (d ∷ ds, rw (encoded, others), (sent.0, rest))

module _ (p : UdpV3Packet) (hp : Packet.post_init p ≡ ok tt) (limit n : ℕ) (pos : 0 < n)
    (room : header_length + chunk_length + crc_length + n * 3 ≤ limit)
    (datagram : limit ≤ max_udp_payload) where
  encode_in_chunks-ok :
      (os : List UdpV3Output)
      → All (λ o. output_post_init o ≡ ok tt) os
      → (ds : List (List ℕ)) × (encode_in_chunks p limit n os ≡ ok ds)
        × Sent p limit (chunk_plan os n) ds
  unfolding encode_in_chunks
  encode_in_chunks-ok [] h = ([], refl, tt)
  encode_in_chunks-ok (o ∷ os) (h, hs) =
      let (first, encoded, sent) =
        encode_offsets-ok p hp limit n pos room datagram o (output_post_init→IsValidOutput o h)
          (range_step (length o.pixels) n) (range_step-lt (length o.pixels) n pos) in
      let (rest, others, after) = encode_in_chunks-ok os hs in
      (
        first ++ rest,
        rw (encoded, others),
        Sent-append p limit (chunks_at o n (range_step (length o.pixels) n)) first (chunk_plan os n)
            rest sent after,
      )

frame_length-eq : (os : List UdpV3Output) → complete_payload_length os ≡ frame_length os
frame_length-eq [] = refl
frame_length-eq (o ∷ os) = omega (arith, frame_length-eq os)

-- What the packetizer returns: the whole frame in one datagram, or the planned chunks.
abbrev pub whole_length : UdpV3Packet → ℕ
whole_length p = header_length + frame_length p.outputs + crc_length

abbrev pub Packetized : UdpV3Packet → ℕ → List (List ℕ) → Type 0
Packetized p limit ds =
    ((d : List ℕ) × (ds ≡ d ∷ []) × (Packet.encode p ≡ ok d) × (length d ≤ limit))
    ⊎ ((limit < whole_length p)
        × Sent p limit (chunk_plan p.outputs (available_rgb_bytes limit / 3)) ds)

module _ (p : UdpV3Packet) (c : Constructed p) (limit : ℕ)
    (least : header_length + chunk_length + crc_length + 3 ≤ limit)
    (datagram : limit ≤ max_udp_payload) where
  chunked-ok :
      limit < whole_length p
      → (ds : List (List ℕ)) × (chunked p limit ≡ ok ds) × Packetized p limit ds
  unfolding chunked
  chunked-ok over =
      let (ds, encoded, sent) =
        encode_in_chunks-ok p c.1 limit (available_rgb_bytes limit / 3) (omega arith) (omega arith)
          datagram p.outputs c.0 in
      (ds, rw (le→leb 1 (available_rgb_bytes limit / 3) (omega arith), encoded), inr (over, sent))

  -- A payload of 16 bits is encoded whole first, and kept if it is within the limit.
  whole_or_chunked :
      frame_length p.outputs ≤ max_uint16
      → (ds : List (List ℕ)) × ((do
        complete ← Packet.encode p
        if leb (length complete) limit then ok (complete ∷ []) else chunked p limit)
          ≡ ok ds)
        × Packetized p limit ds
  whole_or_chunked small =
      let (d, encoded, len, _) = packet_encode_total p c small in
      elim (Bool-cases (leb (length d) limit)) [
        | inl e ↦ (d ∷ [], rw (encoded, e), inl (d, refl, encoded, leb→le (length d) limit e))
        | inr e ↦
            let (ds, made, packed) = chunked-ok (omega (arith, leb-false→lt (length d) limit e)) in
            (ds, rw (encoded, e) made, packed)
      ]

-- With a limit from 46 to 65507 bytes the packetizer returns datagrams for every packet that Python
-- can hold, and none is longer than the limit. They are the whole frame alone, or, only where the
-- whole frame is longer than the limit, the planned chunks, each as the encoding of a packet with
-- that chunk alone. So neither exception of the function is raised.
pub packetizer_total :
    (p : UdpV3Packet) (limit : ℕ)
    → Constructed p
    → header_length + chunk_length + crc_length + 3 ≤ limit
    → limit ≤ max_udp_payload
    → (ds : List (List ℕ)) × (encode_udp_v3_frame_datagrams p limit ≡ ok ds) × Packetized p limit ds
unfolding encode_udp_v3_frame_datagrams
packetizer_total p limit c least datagram =
    rw (le→leb 1 limit (omega arith), le→leb limit max_udp_payload datagram)
      (elim (Bool-cases (leb (complete_payload_length p.outputs) max_uint16)) [
        | inl e ↦ rw e (
            whole_or_chunked p c limit least datagram
              (omega (arith, leb→le _ _ e, frame_length-eq p.outputs)))
        | inr e ↦ rw e (
            chunked-ok p c limit least datagram
              (omega (arith, leb-false→lt _ _ e, frame_length-eq p.outputs)))
      ])
