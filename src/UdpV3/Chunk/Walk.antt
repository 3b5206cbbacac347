-- ===== src/UdpV3/Chunk/Walk.antt =====
-- udp_v3.py: the walk over the chunks in a payload inverts their encoding.
use light_belt.Prelude.{
  ℕ, zero, suc, ◌*◌, ◌<◌, ◌≤◌, ◌≡◌, refl, sym, subst, ◌∙◌, false, some, List, [], ◌∷◌, ◌++◌, arith,
  inl, inr, Result-cases, length, length-append, length-take, All, All-take, All-drop, take, drop,
  take-append, drop-append, take-append-drop, ok, ok-injective, >>=-eq-ok, and_then,
  and_then-eq-some,
}
use light_belt.Prelude.Sets.{elem}
use light_belt.Wire.Bytes.{IsByte, AreBytes}
use light_belt.Wire.Struct.{Fields, pack, unpack, packed-unpack, and_then-unpack}
use light_belt.Wire.Pixels.{
  IsPixel, flat, pixels_to_payload, pixels_to_payload-flat, pixels_to_payload-eq-ok, length-flat,
  payload_to_pixels, payload_to_pixels-flat, flat-payload_to_pixels,
}
use light_belt.UdpV3.Chunk.{
  UdpV3Chunk, chunk_post_init, chunk_format, chunk_length, chunk_fields, payload_length,
  encode_chunks, Walker, construct_chunk, decode_chunk, decode_chunks,
}
use light_belt.UdpV3.Chunk.Ranges.{Welcome, Walks, chunk_post_init→IsValidChunk}

-- The parts of an encoded list of chunks.
record Parts (c : UdpV3Chunk) (cs : List UdpV3Chunk) (bytes : List ℕ) : Type 0 where
  header : List ℕ
  rest : List ℕ
  channels : All IsPixel c.pixels
  packed : pack chunk_format (chunk_fields c (length (flat c.pixels))) ≡ ok header
  others : encode_chunks cs ≡ ok rest
  joined : header ++ (flat c.pixels ++ rest) ≡ bytes

encode_chunks→Parts :
    (c : UdpV3Chunk) (cs : List UdpV3Chunk) (bytes : List ℕ)
    → encode_chunks (c ∷ cs) ≡ ok bytes
    → Parts c cs bytes
unfolding encode_chunks
encode_chunks→Parts c cs bytes h =
    let (rgb, e, h1) = >>=-eq-ok (pixels_to_payload c.pixels) _ h in
    let channels = pixels_to_payload-eq-ok c.pixels rgb e in
    let flat_rgb : rgb ≡ flat c.pixels =
      ok-injective (sym e ∙ pixels_to_payload-flat c.pixels channels) in
    let (header, packed, h2) = >>=-eq-ok (pack chunk_format (chunk_fields c (length rgb))) _ h1 in
    let (rest, others, joined) = >>=-eq-ok (encode_chunks cs) _ h2 in
    record {
      header = header;
      rest = rest;
      channels = channels;
      packed =
          subst (λ (bs : List ℕ). pack chunk_format (chunk_fields c (length bs)) ≡ ok header)
            flat_rgb packed;
      others = others;
      joined = rw (← flat_rgb) (ok-injective joined);
    }

Parts→encode_chunks :
    (c : UdpV3Chunk) (cs : List UdpV3Chunk) (bytes : List ℕ)
    → Parts c cs bytes
    → encode_chunks (c ∷ cs) ≡ ok bytes
unfolding encode_chunks
Parts→encode_chunks c cs bytes r =
    rw (pixels_to_payload-flat c.pixels r.channels, r.packed, r.others, r.joined)

construct_chunk-eq-some :
    (q c : UdpV3Chunk) → construct_chunk q ≡ some c → (chunk_post_init q ≡ ok tt) × (q ≡ c)
unfolding construct_chunk
construct_chunk-eq-some q c h = elim (Result-cases (chunk_post_init q)) [
  | inl (tt, e) ↦ (e, ground arith)
  | inr (x, e) ↦ ground arith
]

module _ where

-- One round, on a chunk that is welcome.
decode_chunk-Welcome :
    (walk : Walker) (c : UdpV3Chunk) (cs : List UdpV3Chunk) (rest seen_ids seen_gpios : List ℕ)
    → Welcome c seen_ids seen_gpios
    → walk rest (c.output_id ∷ seen_ids) (c.gpio ∷ seen_gpios) ≡ some cs
    → decode_chunk walk
        (flat c.pixels ++ rest)
        seen_ids
        seen_gpios
        (chunk_fields c (length (flat c.pixels)))
      ≡ some (c ∷ cs)
unfolding decode_chunk construct_chunk
decode_chunk-Welcome walk c cs rest seen_ids seen_gpios w onward =
    let v = chunk_post_init→IsValidChunk c w.constructed in
    rw
      (
        take-append (length (flat c.pixels)) (flat c.pixels) rest refl,
        drop-append (length (flat c.pixels)) (flat c.pixels) rest refl,
        payload_to_pixels-flat c.pixels,
        w.constructed,
        onward,
        w.new_id,
        w.new_gpio,
      )
      (ground
        (arith, v.id, v.count, v.range, length-flat c.pixels, length-append (flat c.pixels) rest))

pub decode_chunks-encode_chunks :
    (cs : List UdpV3Chunk) (bytes seen_ids seen_gpios : List ℕ)
    → Walks cs seen_ids seen_gpios
    → encode_chunks cs ≡ ok bytes
    → decode_chunks (length cs) bytes seen_ids seen_gpios ≡ some cs
unfolding decode_chunks encode_chunks
decode_chunks-encode_chunks [] bytes seen_ids seen_gpios w h = rw (← ok-injective h, w)
decode_chunks-encode_chunks (c ∷ cs) bytes seen_ids seen_gpios (w, ws) h =
    let r = encode_chunks→Parts c cs bytes h in
    let (unpacked, len, _) = packed-unpack chunk_format _ r.header r.packed in
    rw
      (
        ← r.joined,
        take-append chunk_length r.header (flat c.pixels ++ r.rest) len,
        drop-append chunk_length r.header (flat c.pixels ++ r.rest) len,
        unpacked,
        decode_chunk-Welcome (decode_chunks (length cs)) c cs r.rest seen_ids seen_gpios w (
            decode_chunks-encode_chunks cs r.rest (c.output_id ∷ seen_ids) (c.gpio ∷ seen_gpios) ws
              r.others),
      )
      (ground (arith, len, length-append r.header (flat c.pixels ++ r.rest)))

-- What one round lets through.
record Round (walk : Walker) (rest seen_ids seen_gpios : List ℕ)
    (output_id gpio total offset pixel_count rgb_length : ℕ) (q : UdpV3Chunk)
    (out : List UdpV3Chunk) : Type 0 where
  new_id : elem output_id seen_ids ≡ false
  new_gpio : elem gpio seen_gpios ≡ false
  sized : rgb_length ≡ pixel_count * 3
  within : rgb_length ≤ length rest
  onward :
      and_then (construct_chunk q) (λ c.
        and_then
          (walk (drop rgb_length rest) (output_id ∷ seen_ids) (gpio ∷ seen_gpios))
          (λ cs. some (c ∷ cs)))
      ≡ some out

module _ (walk : Walker) (rest seen_ids seen_gpios : List ℕ)
    (output_id gpio total offset pixel_count rgb_length : ℕ) (out : List UdpV3Chunk) where
  abbrev chunk_read : UdpV3Chunk
  chunk_read = record {
    output_id = output_id;
    gpio = gpio;
    total_pixel_count = total;
    chunk_offset = offset;
    pixels = payload_to_pixels (take rgb_length rest);
  }

  decode_chunk→Round :
      decode_chunk walk rest seen_ids seen_gpios
          (output_id, (gpio, (total, (offset, (pixel_count, (rgb_length, tt))))))
        ≡ some out
      → Round walk rest seen_ids seen_gpios output_id gpio total offset pixel_count rgb_length
          chunk_read out
  unfolding decode_chunk
  decode_chunk→Round h = ground arith

-- One round that succeeds, with the list of chunks that it returns.
record Stepped (walk : Walker) (rest seen_ids seen_gpios : List ℕ) (fields : Fields chunk_format)
    (c : UdpV3Chunk) (cs : List UdpV3Chunk) : Type 0 where
  welcome : Welcome c seen_ids seen_gpios
  same_fields : fields ≡ chunk_fields c (length (flat c.pixels))
  channels : All IsPixel c.pixels
  rgb : flat c.pixels ++ drop (length (flat c.pixels)) rest ≡ rest
  after :
      walk (drop (length (flat c.pixels)) rest) (c.output_id ∷ seen_ids) (c.gpio ∷ seen_gpios)
      ≡ some cs

module _ (walk : Walker) (rest seen_ids seen_gpios : List ℕ) (a : AreBytes rest)
    (out : List UdpV3Chunk) where
  decode_chunk→Stepped :
      (fields : Fields chunk_format)
      → decode_chunk walk rest seen_ids seen_gpios fields ≡ some out
      → (c : UdpV3Chunk) × (cs : List UdpV3Chunk) × (out ≡ c ∷ cs)
        × Stepped walk rest seen_ids seen_gpios fields c cs
  decode_chunk→Stepped (output_id, (gpio, (total, (offset, (pixel_count, (rgb_length, u)))))) h =
      let r =
        decode_chunk→Round walk rest seen_ids seen_gpios output_id gpio total offset pixel_count
          rgb_length out h in
      let c =
        chunk_read walk rest seen_ids seen_gpios output_id gpio total offset pixel_count rgb_length
          out in
      let (c', made, h1) = and_then-eq-some (construct_chunk c) _ r.onward in
      let (cs, walked, h2) =
        and_then-eq-some (walk (drop rgb_length rest) (output_id ∷ seen_ids) (gpio ∷ seen_gpios)) _
          h1 in
      let (constructed, same) = construct_chunk-eq-some c c' made in
      let (back, count, channels) =
        flat-payload_to_pixels pixel_count (take rgb_length rest)
          (omega (arith, length-take rgb_length rest, r.sized, r.within))
          (All-take IsByte rgb_length rest a) in
      let size : rgb_length ≡ length (flat c.pixels) =
        omega (arith, length-flat c.pixels, count, r.sized) in
      (
        c,
        cs,
        cc,
        record {
          welcome = record { constructed = constructed; new_id = r.new_id; new_gpio = r.new_gpio };
          same_fields = ground (arith, size, count);
          channels = channels;
          rgb = rw (← size, back) (take-append-drop rgb_length rest);
          after = rw (← size) walked;
        },
      )

module _ where

Stepped→encode_chunks :
    (n : ℕ) (bytes seen_ids seen_gpios : List ℕ) (fields : Fields chunk_format) (c : UdpV3Chunk)
    (cs : List UdpV3Chunk)
    → pack chunk_format fields ≡ ok (take chunk_length bytes)
    → Stepped (decode_chunks n) (drop chunk_length bytes) seen_ids seen_gpios fields c cs
    → encode_chunks cs ≡ ok (drop (length (flat c.pixels)) (drop chunk_length bytes))
    → encode_chunks (c ∷ cs) ≡ ok bytes
Stepped→encode_chunks n bytes seen_ids seen_gpios fields c cs packed s others =
    Parts→encode_chunks c cs bytes (record {
      header = take chunk_length bytes;
      rest = drop (length (flat c.pixels)) (drop chunk_length bytes);
      channels = s.channels;
      packed = rw s.same_fields at packed;
      others = others;
      joined = rw s.rgb (take-append-drop chunk_length bytes);
    })

-- The test on the length comes before the chunk header is read.
decode_chunks-length :
    (n : ℕ) (bytes seen_ids seen_gpios : List ℕ) (out : List UdpV3Chunk)
    → decode_chunks (suc n) bytes seen_ids seen_gpios ≡ some out
    → (length (take chunk_length bytes) ≡ chunk_length)
      × (and_then
            (unpack chunk_format (take chunk_length bytes))
            (decode_chunk (decode_chunks n) (drop chunk_length bytes) seen_ids seen_gpios)
          ≡ some out)
unfolding decode_chunks
decode_chunks-length n bytes seen_ids seen_gpios out h =
    ground (arith, length-take chunk_length bytes)

pub decode_chunks→Walks :
    (n : ℕ) (bytes seen_ids seen_gpios : List ℕ) (out : List UdpV3Chunk)
    → AreBytes bytes
    → decode_chunks n bytes seen_ids seen_gpios ≡ some out
    → (length out ≡ n) × (encode_chunks out ≡ ok bytes) × Walks out seen_ids seen_gpios
unfolding decode_chunks encode_chunks
decode_chunks→Walks zero [] seen_ids seen_gpios [] a h = ground arith
decode_chunks→Walks zero [] seen_ids seen_gpios (c ∷ cs) a h = absurd (ground arith)
decode_chunks→Walks zero (b ∷ bytes) seen_ids seen_gpios out a h = cc
decode_chunks→Walks (suc n) bytes seen_ids seen_gpios out a h =
    let (len, read) = decode_chunks-length n bytes seen_ids seen_gpios out h in
    let (fields, packed, h1) =
      and_then-unpack chunk_format (take chunk_length bytes)
        (decode_chunk (decode_chunks n) (drop chunk_length bytes) seen_ids seen_gpios) len
        (All-take IsByte chunk_length bytes a) read in
    let (c, cs, e, s) =
      decode_chunk→Stepped (decode_chunks n) (drop chunk_length bytes) seen_ids seen_gpios
        (All-drop IsByte chunk_length bytes a) out fields h1 in
    let (count, others, walks) =
      decode_chunks→Walks n (drop (length (flat c.pixels)) (drop chunk_length bytes))
        (c.output_id ∷ seen_ids) (c.gpio ∷ seen_gpios) cs
        (All-drop IsByte (length (flat c.pixels)) _ (All-drop IsByte chunk_length bytes a))
        s.after in
    rw e (
      omega arith,
      Stepped→encode_chunks n bytes seen_ids seen_gpios fields c cs packed s others,
      (s.welcome, walks),
    )

pub length-encode_chunks :
    (cs : List UdpV3Chunk) (payload : List ℕ)
    → encode_chunks cs ≡ ok payload
    → length payload ≡ payload_length cs
unfolding encode_chunks
length-encode_chunks [] payload h = rw (← ok-injective h)
length-encode_chunks (c ∷ cs) payload h =
    let r = encode_chunks→Parts c cs payload h in
    let (_, len, _) = packed-unpack chunk_format _ r.header r.packed in
    rw (← r.joined) (
      omega (
        arith,
        length-append r.header (flat c.pixels ++ r.rest),
        length-append (flat c.pixels) r.rest,
        length-flat c.pixels,
        length-encode_chunks cs r.rest r.others,
        len,
      ))

-- A payload with a chunk in it is at least as long as the chunk's header.
pub payload_length_pos : (cs : List UdpV3Chunk) → 0 < length cs → chunk_length ≤ payload_length cs
payload_length_pos [] h = absurd (omega arith)
payload_length_pos (c ∷ cs) h = omega arith
