-- ===== src/UdpV3/Beacon/Codec.antt =====
-- udp_v3.py: `encode` and `decode` of the clock beacon are inverse to each other.
use light_belt.Prelude.{
  ℕ, ◌≤◌, ◌≡◌, sym, ap, true, some, List, ◌↔◌, arith, inl, inr, Result-cases, eq→==, append-nil,
  length, All-take, length-take, take, ok, ◌∙◌, ok-injective, and_then, [],
}
use light_belt.Wire.Bytes.{IsByte, AreBytes}
use light_belt.Wire.Crc.{
  crc_matches, sealed, with_crc-eq, length-sealed, sealed-AreBytes, take-sealed, crc_matches-sealed,
  cut→sealed,
}
use light_belt.Wire.Struct.{Fields, pack, unpack, Fits, unpack-pack, and_then-unpack}
use light_belt.Wire.Pixels.{max_uint32, max_uint64}
use light_belt.UdpV3.Frame.{magic, version, message_type_clock_beacon}
use light_belt.UdpV3.Beacon.{
  UdpV3ClockBeacon, clock_beacon_format, clock_beacon_body_length, clock_beacon_length, body_fields,
  post_init, encode, construct, decode_body, decode,
}

-- What `__post_init__` checks.
record IsValid (b : UdpV3ClockBeacon) : Type 0 where
  sequence : b.sequence ≤ max_uint32
  clock : b.host_monotonic_us ≤ max_uint64
  kind : b.message_type ≡ message_type_clock_beacon

post_init→IsValid : (b : UdpV3ClockBeacon) → post_init b ≡ ok tt → IsValid b
unfolding post_init
post_init→IsValid b h = ground arith

body-Fits : (b : UdpV3ClockBeacon) → IsValid b → Fits clock_beacon_format (body_fields b)
body-Fits b v = omega (arith, v.sequence, v.clock, v.kind)

-- What is left of a sealed body without its checksum.
take-sealed_body : (body : List ℕ) (n : ℕ) → length body ≡ n → take n (sealed body) ≡ body
take-sealed_body body n e = rw append-nil at (take-sealed body [] e)

-- A beacon that Python can hold is encoded without an error, in 20 bytes.
pub beacon_encode_total :
    (b : UdpV3ClockBeacon)
    → post_init b ≡ ok tt
    → (bytes : List ℕ) × (encode b ≡ ok bytes)
      × (length bytes ≡ clock_beacon_length)
      × AreBytes bytes
unfolding encode
beacon_encode_total b h =
    let v = post_init→IsValid b h in
    let (body, packed, _, len, bytes) =
      unpack-pack clock_beacon_format (body_fields b) (body-Fits b v) in
    (
      sealed body,
      rw packed (with_crc-eq body),
      omega (arith, length-sealed body, len),
      sealed-AreBytes body bytes,
    )

construct-post_init : (b : UdpV3ClockBeacon) → post_init b ≡ ok tt → construct b ≡ some b
unfolding construct
construct-post_init b h = rw h

construct-eq-some :
    (b c : UdpV3ClockBeacon) → construct b ≡ some c → (post_init b ≡ ok tt) × (b ≡ c)
unfolding construct
construct-eq-some b c h = elim (Result-cases (post_init b)) [
  | inl (tt, e) ↦ (e, ground arith)
  | inr (x, e) ↦ ground arith
]

decode-encode :
    (b : UdpV3ClockBeacon) (bytes : List ℕ)
    → post_init b ≡ ok tt
    → encode b ≡ ok bytes
    → decode bytes ≡ some b
unfolding decode decode_body
decode-encode b bytes h encoded =
    let v = post_init→IsValid b h in
    let (body, packed, unpacked, len, _) =
      unpack-pack clock_beacon_format (body_fields b) (body-Fits b v) in
    let made : encode b ≡ ok (sealed body) = unfold encode in rw packed (with_crc-eq body) in
    let same : sealed body ≡ bytes = ok-injective (sym made ∙ encoded) in
    let whole : length (sealed body) ≡ clock_beacon_length =
      omega (arith, length-sealed body, len) in
    rw same at (
      let read : decode (sealed body) ≡ some b =
        rw
          (
            whole,
            take-sealed_body body clock_beacon_body_length len,
            unpacked,
            eq→== b.message_type message_type_clock_beacon v.kind,
            crc_matches-sealed body,
          )
          (construct-post_init b h) in
      read)

module _ (bytes : List ℕ) (a : AreBytes bytes) (b : UdpV3ClockBeacon) where
  abbrev beacon : ℕ → ℕ → ℕ → UdpV3ClockBeacon
  beacon kind sequence clock = record {
    sequence = sequence;
    host_monotonic_us = clock;
    message_type = kind;
  }

  tests_passed :
      (m v kind sequence clock : ℕ)
      → decode_body bytes (m, (v, (kind, (sequence, (clock, tt))))) ≡ some b
      → (m ≡ magic)
        × (v ≡ version)
        × (crc_matches bytes ≡ true)
        × (construct (beacon kind sequence clock) ≡ some b)
  unfolding decode_body
  tests_passed m v kind sequence clock h = ground arith

  passed :
      (m v kind sequence clock : ℕ)
      → pack clock_beacon_format (m, (v, (kind, (sequence, (clock, tt)))))
        ≡ ok (take clock_beacon_body_length bytes)
      → length bytes ≡ clock_beacon_length
      → decode_body bytes (m, (v, (kind, (sequence, (clock, tt))))) ≡ some b
      → (post_init b ≡ ok tt) × (encode b ≡ ok bytes)
  passed m v kind sequence clock packed len h =
      let (signed, versioned, intact, made) = tests_passed m v kind sequence clock h in
      let (accepted, same) = construct-eq-some (beacon kind sequence clock) b made in
      let fields : (m, (v, (kind, (sequence, (clock, tt)))))
          ≡ body_fields (beacon kind sequence clock) =
        rw (signed, versioned) in
      let whole : sealed (take clock_beacon_body_length bytes) ≡ bytes =
        rw append-nil at (cut→sealed clock_beacon_body_length 0 bytes a (omega arith) intact) in
      rw same at (
        let result : (post_init (beacon kind sequence clock) ≡ ok tt)
            × (encode (beacon kind sequence clock) ≡ ok bytes) =
          (accepted, (unfold encode in rw (← fields, packed, with_crc-eq) (ap ok whole))) in
        result)

  fields_passed :
      (vs : Fields clock_beacon_format)
      → pack clock_beacon_format vs ≡ ok (take clock_beacon_body_length bytes)
      → length bytes ≡ clock_beacon_length
      → decode_body bytes vs ≡ some b
      → (post_init b ≡ ok tt) × (encode b ≡ ok bytes)
  fields_passed (m, (v, (kind, (sequence, (clock, u))))) = passed m v kind sequence clock

  length_and_body :
      decode bytes ≡ some b
      → (length bytes ≡ clock_beacon_length)
        × (and_then
              (unpack clock_beacon_format (take clock_beacon_body_length bytes))
              (decode_body bytes)
            ≡ some b)
  unfolding decode
  length_and_body h = ground arith

  decode→encode : decode bytes ≡ some b → (post_init b ≡ ok tt) × (encode b ≡ ok bytes)
  unfolding decode
  decode→encode h =
      let (len, read) = length_and_body h in
      let (vs, packed, rest) =
        and_then-unpack clock_beacon_format (take clock_beacon_body_length bytes)
          (decode_body bytes) (omega (arith, length-take clock_beacon_body_length bytes))
          (All-take IsByte clock_beacon_body_length bytes a) read in
      fields_passed vs packed len rest

-- On a string of bytes, `decode` answers with a beacon exactly when the constructor accepts it and
-- the datagram is its encoding.
pub beacon_decode_iff :
    (bytes : List ℕ) (b : UdpV3ClockBeacon)
    → AreBytes bytes
    → (decode bytes ≡ some b) ↔ ((post_init b ≡ ok tt) × (encode b ≡ ok bytes))
beacon_decode_iff bytes b a = (decode→encode bytes a b, λ d. decode-encode b bytes d.0 d.1)
