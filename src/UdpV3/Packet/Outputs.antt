-- ===== src/UdpV3/Packet/Outputs.antt =====
-- udp_v3.py: the outputs in the payload of a whole frame, written and read back.
use light_belt.Prelude.{
  ℕ, zero, suc, ◌*◌, ◌<◌, ◌≤◌, ◌≡◌, ◌≢◌, refl, sym, subst, ◌∙◌, true, false, Option, some, List, [],
  ◌∷◌, ◌++◌, arith, inl, inr, Result-cases, length, length-append, length-take, All, All-take,
  All-drop, take, drop, take-append, drop-append, take-append-drop, ok, ok-injective, >>=-eq-ok,
  and_then, and_then-eq-some,
}
use light_belt.Prelude.Sets.{elem}
use light_belt.Wire.Bytes.{IsByte, AreBytes}
use light_belt.Wire.Struct.{Fields, pack, unpack, packed-unpack, and_then-unpack}
use light_belt.Wire.Pixels.{
  IsPixel, max_uint16, flat, pixels_to_payload, pixels_to_payload-flat, pixels_to_payload-eq-ok,
  length-flat, payload_to_pixels, payload_to_pixels-flat, flat-payload_to_pixels,
}
use light_belt.UdpV3.Packet.{
  UdpV3Output, output_post_init, output_format, output_length, output_fields, encode_outputs, Table,
  output_expected, ids_expected, Walk, construct_output, decode_output, decode_outputs,
}

-- What one output must be for `decode` to take it after those that it has met.
pub record Welcome (expected : Option Table) (o : UdpV3Output) (seen_ids seen_gpios : List ℕ)
    : Type 0 where
  pub constructed : output_post_init o ≡ ok tt
  pub new_id : elem o.output_id seen_ids ≡ false
  pub new_gpio : elem o.gpio seen_gpios ≡ false
  pub expected_row : output_expected expected o.output_id o.gpio (length o.pixels) ≡ true

abbrev pub Walks : Option Table → List UdpV3Output → List ℕ → List ℕ → Type 0
Walks expected [] seen_ids seen_gpios = ids_expected expected seen_ids ≡ true
Walks expected (o ∷ os) seen_ids seen_gpios =
    Welcome expected o seen_ids seen_gpios
    × Walks expected os (o.output_id ∷ seen_ids) (o.gpio ∷ seen_gpios)

-- What `UdpV3Output.__post_init__` checks.
pub record IsValidOutput (o : UdpV3Output) : Type 0 where
  pub id : (0 < o.output_id) × (o.output_id ≤ 255)
  pub gpio : o.gpio ≤ 255
  pub count : length o.pixels ≤ max_uint16
  pub channels : All IsPixel o.pixels

pub IsValidOutput→output_post_init :
    (o : UdpV3Output) → IsValidOutput o → output_post_init o ≡ ok tt
unfolding output_post_init
IsValidOutput→output_post_init o v = ground (arith, pixels_to_payload-flat o.pixels v.channels)

pub output_post_init→IsValidOutput :
    (o : UdpV3Output) → output_post_init o ≡ ok tt → IsValidOutput o
unfolding output_post_init
output_post_init→IsValidOutput o h = elim (Result-cases (pixels_to_payload o.pixels)) [
  | inl (payload, e) ↦ let channels = pixels_to_payload-eq-ok o.pixels payload e in ground arith
  | inr (x, e) ↦ ground arith
]

-- The parts of an encoded list of outputs.
record Parts (o : UdpV3Output) (os : List UdpV3Output) (bytes : List ℕ) : Type 0 where
  header : List ℕ
  rest : List ℕ
  channels : All IsPixel o.pixels
  packed : pack output_format (output_fields o (length (flat o.pixels))) ≡ ok header
  others : encode_outputs os ≡ ok rest
  joined : header ++ (flat o.pixels ++ rest) ≡ bytes

encode_outputs→Parts :
    (o : UdpV3Output) (os : List UdpV3Output) (bytes : List ℕ)
    → encode_outputs (o ∷ os) ≡ ok bytes
    → Parts o os bytes
unfolding encode_outputs
encode_outputs→Parts o os bytes h =
    let (rgb, e, h1) = >>=-eq-ok (pixels_to_payload o.pixels) _ h in
    let channels = pixels_to_payload-eq-ok o.pixels rgb e in
    let flat_rgb : rgb ≡ flat o.pixels =
      ok-injective (sym e ∙ pixels_to_payload-flat o.pixels channels) in
    let (header, packed, h2) = >>=-eq-ok (pack output_format (output_fields o (length rgb))) _ h1 in
    let (rest, others, joined) = >>=-eq-ok (encode_outputs os) _ h2 in
    record {
      header = header;
      rest = rest;
      channels = channels;
      packed =
          subst (λ (bs : List ℕ). pack output_format (output_fields o (length bs)) ≡ ok header)
            flat_rgb packed;
      others = others;
      joined = rw (← flat_rgb) (ok-injective joined);
    }

Parts→encode_outputs :
    (o : UdpV3Output) (os : List UdpV3Output) (bytes : List ℕ)
    → Parts o os bytes
    → encode_outputs (o ∷ os) ≡ ok bytes
unfolding encode_outputs
Parts→encode_outputs o os bytes r =
    rw (pixels_to_payload-flat o.pixels r.channels, r.packed, r.others, r.joined)

construct_output-eq-some :
    (q o : UdpV3Output) → construct_output q ≡ some o → (output_post_init q ≡ ok tt) × (q ≡ o)
unfolding construct_output
construct_output-eq-some q o h = elim (Result-cases (output_post_init q)) [
  | inl (tt, e) ↦ (e, ground arith)
  | inr (x, e) ↦ ground arith
]

module _ (expected : Option Table) where
  -- One round, on an output that is welcome.
  decode_output-Welcome :
      (walk : Walk) (o : UdpV3Output) (os : List UdpV3Output) (rest seen_ids seen_gpios : List ℕ)
      → Welcome expected o seen_ids seen_gpios
      → walk rest (o.output_id ∷ seen_ids) (o.gpio ∷ seen_gpios) ≡ some os
      → decode_output walk expected
          (flat o.pixels ++ rest)
          seen_ids
          seen_gpios
          (output_fields o (length (flat o.pixels)))
        ≡ some (o ∷ os)
  unfolding decode_output construct_output
  decode_output-Welcome walk o os rest seen_ids seen_gpios w onward =
      let v = output_post_init→IsValidOutput o w.constructed in
      rw
        (
          take-append (length (flat o.pixels)) (flat o.pixels) rest refl,
          drop-append (length (flat o.pixels)) (flat o.pixels) rest refl,
          payload_to_pixels-flat o.pixels,
          w.constructed,
          onward,
          w.new_id,
          w.new_gpio,
          w.expected_row,
        )
        (ground (arith, v.id, length-flat o.pixels, length-append (flat o.pixels) rest))

  pub decode_outputs-encode_outputs :
      (os : List UdpV3Output) (bytes seen_ids seen_gpios : List ℕ)
      → Walks expected os seen_ids seen_gpios
      → encode_outputs os ≡ ok bytes
      → decode_outputs (length os) expected bytes seen_ids seen_gpios ≡ some os
  unfolding decode_outputs encode_outputs
  decode_outputs-encode_outputs [] bytes seen_ids seen_gpios w h = rw (← ok-injective h, w)
  decode_outputs-encode_outputs (o ∷ os) bytes seen_ids seen_gpios (w, ws) h =
      let r = encode_outputs→Parts o os bytes h in
      let (unpacked, len, _) = packed-unpack output_format _ r.header r.packed in
      rw
        (
          ← r.joined,
          take-append output_length r.header (flat o.pixels ++ r.rest) len,
          drop-append output_length r.header (flat o.pixels ++ r.rest) len,
          unpacked,
          decode_output-Welcome (decode_outputs (length os) expected) o os r.rest seen_ids
              seen_gpios w
              (decode_outputs-encode_outputs os r.rest (o.output_id ∷ seen_ids)
                (o.gpio ∷ seen_gpios) ws r.others),
        )
        (ground (arith, len, length-append r.header (flat o.pixels ++ r.rest)))

-- What one round lets through.
record Round (expected : Option Table) (walk : Walk) (rest seen_ids seen_gpios : List ℕ)
    (output_id gpio pixel_count rgb_length : ℕ) (q : UdpV3Output) (out : List UdpV3Output)
    : Type 0 where
  nonzero : output_id ≢ 0
  new_id : elem output_id seen_ids ≡ false
  new_gpio : elem gpio seen_gpios ≡ false
  sized : rgb_length ≡ pixel_count * 3
  within : rgb_length ≤ length rest
  expected_row : output_expected expected output_id gpio pixel_count ≡ true
  onward :
      and_then (construct_output q) (λ o.
        and_then
          (walk (drop rgb_length rest) (output_id ∷ seen_ids) (gpio ∷ seen_gpios))
          (λ os. some (o ∷ os)))
      ≡ some out

module _ (expected : Option Table) (walk : Walk) (rest seen_ids seen_gpios : List ℕ)
    (output_id gpio pixel_count rgb_length : ℕ) (out : List UdpV3Output) where
  abbrev output_read : UdpV3Output
  output_read = record {
    output_id = output_id;
    gpio = gpio;
    pixels = payload_to_pixels (take rgb_length rest);
  }

  decode_output→Round :
      decode_output walk expected rest seen_ids seen_gpios
          (output_id, (gpio, (pixel_count, (rgb_length, tt))))
        ≡ some out
      → Round expected walk rest seen_ids seen_gpios output_id gpio pixel_count rgb_length
          output_read out
  unfolding decode_output
  decode_output→Round h = ground arith

-- One round that succeeds, with the list of outputs that it returns.
record Stepped (expected : Option Table) (walk : Walk) (rest seen_ids seen_gpios : List ℕ)
    (fields : Fields output_format) (o : UdpV3Output) (os : List UdpV3Output) : Type 0 where
  welcome : Welcome expected o seen_ids seen_gpios
  same_fields : fields ≡ output_fields o (length (flat o.pixels))
  channels : All IsPixel o.pixels
  rgb : flat o.pixels ++ drop (length (flat o.pixels)) rest ≡ rest
  after :
      walk (drop (length (flat o.pixels)) rest) (o.output_id ∷ seen_ids) (o.gpio ∷ seen_gpios)
      ≡ some os

module _ (expected : Option Table) (walk : Walk) (rest seen_ids seen_gpios : List ℕ)
    (a : AreBytes rest) (out : List UdpV3Output) where
  decode_output→Stepped :
      (fields : Fields output_format)
      → decode_output walk expected rest seen_ids seen_gpios fields ≡ some out
      → (o : UdpV3Output) × (os : List UdpV3Output) × (out ≡ o ∷ os)
        × Stepped expected walk rest seen_ids seen_gpios fields o os
  decode_output→Stepped (output_id, (gpio, (pixel_count, (rgb_length, u)))) h =
      let r =
        decode_output→Round expected walk rest seen_ids seen_gpios output_id gpio pixel_count
          rgb_length out h in
      let o =
        output_read expected walk rest seen_ids seen_gpios output_id gpio pixel_count rgb_length
          out in
      let (o', made, h1) = and_then-eq-some (construct_output o) _ r.onward in
      let (os, walked, h2) =
        and_then-eq-some (walk (drop rgb_length rest) (output_id ∷ seen_ids) (gpio ∷ seen_gpios)) _
          h1 in
      let (constructed, same) = construct_output-eq-some o o' made in
      let (back, count, channels) =
        flat-payload_to_pixels pixel_count (take rgb_length rest)
          (omega (arith, length-take rgb_length rest, r.sized, r.within))
          (All-take IsByte rgb_length rest a) in
      let size : rgb_length ≡ length (flat o.pixels) =
        omega (arith, length-flat o.pixels, count, r.sized) in
      (
        o,
        os,
        cc,
        record {
          welcome = record {
            constructed = constructed;
            new_id = r.new_id;
            new_gpio = r.new_gpio;
            expected_row = rw count r.expected_row;
          };
          same_fields = ground (arith, size, count);
          channels = channels;
          rgb = rw (← size, back) (take-append-drop rgb_length rest);
          after = rw (← size) walked;
        },
      )

module _ (expected : Option Table) where
  Stepped→encode_outputs :
      (n : ℕ) (bytes seen_ids seen_gpios : List ℕ) (fields : Fields output_format) (o : UdpV3Output)
      (os : List UdpV3Output)
      → pack output_format fields ≡ ok (take output_length bytes)
      → Stepped expected
          (decode_outputs n expected)
          (drop output_length bytes)
          seen_ids
          seen_gpios
          fields
          o
          os
      → encode_outputs os ≡ ok (drop (length (flat o.pixels)) (drop output_length bytes))
      → encode_outputs (o ∷ os) ≡ ok bytes
  Stepped→encode_outputs n bytes seen_ids seen_gpios fields o os packed s others =
      Parts→encode_outputs o os bytes (record {
        header = take output_length bytes;
        rest = drop (length (flat o.pixels)) (drop output_length bytes);
        channels = s.channels;
        packed = rw s.same_fields at packed;
        others = others;
        joined = rw s.rgb (take-append-drop output_length bytes);
      })

  -- The test on the length comes before the output header is read.
  decode_outputs-length :
      (n : ℕ) (bytes seen_ids seen_gpios : List ℕ) (out : List UdpV3Output)
      → decode_outputs (suc n) expected bytes seen_ids seen_gpios ≡ some out
      → (length (take output_length bytes) ≡ output_length)
        × (and_then (unpack output_format (take output_length bytes)) (
              decode_output
                (decode_outputs n expected)
                expected
                (drop output_length bytes)
                seen_ids
                seen_gpios)
            ≡ some out)
  unfolding decode_outputs
  decode_outputs-length n bytes seen_ids seen_gpios out h =
      ground (arith, length-take output_length bytes)

  pub decode_outputs→Walks :
      (n : ℕ) (bytes seen_ids seen_gpios : List ℕ) (out : List UdpV3Output)
      → AreBytes bytes
      → decode_outputs n expected bytes seen_ids seen_gpios ≡ some out
      → (length out ≡ n) × (encode_outputs out ≡ ok bytes) × Walks expected out seen_ids seen_gpios
  unfolding decode_outputs encode_outputs
  decode_outputs→Walks zero [] seen_ids seen_gpios [] a h = ground arith
  decode_outputs→Walks zero [] seen_ids seen_gpios (o ∷ os) a h = absurd (ground arith)
  decode_outputs→Walks zero (b ∷ bytes) seen_ids seen_gpios out a h = cc
  decode_outputs→Walks (suc n) bytes seen_ids seen_gpios out a h =
      let (len, read) = decode_outputs-length n bytes seen_ids seen_gpios out h in
      let (fields, packed, h1) =
        and_then-unpack output_format (take output_length bytes)
          (decode_output (decode_outputs n expected) expected (drop output_length bytes) seen_ids
            seen_gpios)
          len (All-take IsByte output_length bytes a) read in
      let (o, os, e, s) =
        decode_output→Stepped expected (decode_outputs n expected) (drop output_length bytes)
          seen_ids seen_gpios (All-drop IsByte output_length bytes a) out fields h1 in
      let (count, others, walks) =
        decode_outputs→Walks n (drop (length (flat o.pixels)) (drop output_length bytes))
          (o.output_id ∷ seen_ids) (o.gpio ∷ seen_gpios) os
          (All-drop IsByte (length (flat o.pixels)) _ (All-drop IsByte output_length bytes a))
          s.after in
      rw e (
        omega arith,
        Stepped→encode_outputs n bytes seen_ids seen_gpios fields o os packed s others,
        (s.welcome, walks),
      )
