-- ===== src/UdpV3/Packet/Encoded.antt =====
-- udp_v3.py: an encoded whole frame in its parts, and `decode` on it.
use light_belt.Prelude.{
  ℕ, ◌<◌, ◌≤◌, ◌≡◌, refl, sym, ◌∙◌, true, Option, none, some, List, [], ◌∷◌, ◌++◌, arith, le→leb,
  ◌==◌, leb, not, same, length, length-append, All, ok, ok-injective, >>=-eq-ok, require-eq-ok,
  value_error,
}
use light_belt.Prelude.Sets.{elem, distinct, distinct_iff, Fresh, met, elem-met, same_set_iff}
use light_belt.Wire.Struct.{pack, unpack, packed-unpack}
use light_belt.Wire.Crc.{
  sealed, with_crc-eq, length-sealed, take-sealed, drop-sealed, crc_matches-sealed,
}
use light_belt.Wire.Pixels.{max_uint16}
use light_belt.UdpV3.Frame.{
  message_type_frame, is_scheduled, header_format, header_length, apply_raw, apply_of, expects,
}
use light_belt.UdpV3.Packet.{
  UdpV3Output, UdpV3Packet, output_post_init, post_init, Constructed, output_ids, gpios,
  encode_outputs, encode, header_fields, Table, table_ids, output_expected, ids_expected,
  decode_outputs, at_least, construct, Wanted, decode_body, decode,
}
use light_belt.UdpV3.Packet.Outputs.{Walks, decode_outputs-encode_outputs}

abbrev pub IsExpected : Option Table → UdpV3Output → Type 0
IsExpected expected o = output_expected expected o.output_id o.gpio (length o.pixels) ≡ true

-- What `Walks` says, one condition at a time.
pub record Walked (expected : Option Table) (os : List UdpV3Output) (seen_ids seen_gpios : List ℕ)
    : Type 0 where
  pub constructed : All (λ o. output_post_init o ≡ ok tt) os
  pub fresh_ids : Fresh seen_ids (output_ids os)
  pub fresh_gpios : Fresh seen_gpios (gpios os)
  pub rows : All (IsExpected expected) os
  pub complete : ids_expected expected (met seen_ids (output_ids os)) ≡ true

pub Walks→Walked :
    (expected : Option Table) (os : List UdpV3Output) (seen_ids seen_gpios : List ℕ)
    → Walks expected os seen_ids seen_gpios
    → Walked expected os seen_ids seen_gpios
Walks→Walked expected [] seen_ids seen_gpios w = record {
  constructed = tt;
  fresh_ids = tt;
  fresh_gpios = tt;
  rows = tt;
  complete = w;
}
Walks→Walked expected (o ∷ os) seen_ids seen_gpios (w, ws) =
    let r = Walks→Walked expected os (o.output_id ∷ seen_ids) (o.gpio ∷ seen_gpios) ws in
    record {
      constructed = (w.constructed, r.constructed);
      fresh_ids = (w.new_id, r.fresh_ids);
      fresh_gpios = (w.new_gpio, r.fresh_gpios);
      rows = (w.expected_row, r.rows);
      complete = r.complete;
    }

Walked→Walks :
    (expected : Option Table) (os : List UdpV3Output) (seen_ids seen_gpios : List ℕ)
    → Walked expected os seen_ids seen_gpios
    → Walks expected os seen_ids seen_gpios
Walked→Walks expected [] seen_ids seen_gpios r = r.complete
Walked→Walks expected (o ∷ os) seen_ids seen_gpios r = (
  record {
    constructed = r.constructed.0;
    new_id = r.fresh_ids.0;
    new_gpio = r.fresh_gpios.0;
    expected_row = r.rows.0;
  },
  Walked→Walks expected os (o.output_id ∷ seen_ids) (o.gpio ∷ seen_gpios) (record {
    constructed = r.constructed.1;
    fresh_ids = r.fresh_ids.1;
    fresh_gpios = r.fresh_gpios.1;
    rows = r.rows.1;
    complete = r.complete;
  }),
)

-- The order in which the ids were met does not matter.
pub ids_expected-met :
    (expected : Option Table) (ids : List ℕ)
    → ids_expected expected (met [] ids) ≡ true
    → ids_expected expected ids ≡ true
unfolding elem
ids_expected-met none ids h = refl
ids_expected-met (some table) ids h =
    (same_set_iff ids (table_ids table)).1
      λ x. ground (arith, (same_set_iff (met [] ids) (table_ids table)).0 h x, elem-met x [] ids)

met-ids_expected :
    (expected : Option Table) (ids : List ℕ)
    → ids_expected expected ids ≡ true
    → ids_expected expected (met [] ids) ≡ true
unfolding elem
met-ids_expected none ids h = refl
met-ids_expected (some table) ids h =
    (same_set_iff (met [] ids) (table_ids table)).1
      λ x. ground (arith, (same_set_iff ids (table_ids table)).0 h x, elem-met x [] ids)

-- What `__post_init__` checks of a packet.
pub record IsValid (p : UdpV3Packet) : Type 0 where
  pub node_id : (0 < p.digital_node_id) × (p.digital_node_id ≤ 255)
  pub flags : p.flags < 8
  pub schedule : same (is_scheduled p.flags) (not (apply_raw p.apply_at_us == 0)) ≡ true
  pub apply_at : apply_of (apply_raw p.apply_at_us) ≡ p.apply_at_us
  pub message_type : p.message_type ≡ message_type_frame
  pub count : (0 < length p.outputs) × (length p.outputs ≤ 3)
  pub unique : (distinct (output_ids p.outputs) ≡ true) × (distinct (gpios p.outputs) ≡ true)

pub post_init→IsValid : (p : UdpV3Packet) → post_init p ≡ ok tt → IsValid p
unfolding post_init
post_init→IsValid p h = ground arith

-- An encoded packet in its parts.
pub record Parts (p : UdpV3Packet) (bytes : List ℕ) : Type 0 where
  pub payload : List ℕ
  pub header : List ℕ
  pub outputs_encoded : encode_outputs p.outputs ≡ ok payload
  pub small : length payload ≤ max_uint16
  pub packed : pack header_format (header_fields p (length payload)) ≡ ok header
  pub joined : sealed (header ++ payload) ≡ bytes

pub encode→Parts : (p : UdpV3Packet) (bytes : List ℕ) → encode p ≡ ok bytes → Parts p bytes
unfolding encode
encode→Parts p bytes h =
    let (payload, e, h1) = >>=-eq-ok (encode_outputs p.outputs) _ h in
    let (small, h2) = require-eq-ok (leb (length payload) max_uint16) value_error _ h1 in
    let (header, packed, h3) =
      >>=-eq-ok (pack header_format (header_fields p (length payload))) _ h2 in
    record {
      payload = payload;
      header = header;
      outputs_encoded = e;
      small = ground arith;
      packed = packed;
      joined = ok-injective (sym (with_crc-eq (header ++ payload)) ∙ h3);
    }

pub Parts→encode : (p : UdpV3Packet) (bytes : List ℕ) → Parts p bytes → encode p ≡ ok bytes
unfolding encode
Parts→encode p bytes r = rw (
  r.outputs_encoded,
  le→leb (length r.payload) max_uint16 r.small,
  r.packed,
  with_crc-eq (r.header ++ r.payload),
  r.joined,
)

-- What `decode` lets through.
pub record Decoded (bytes : List ℕ) (w : Wanted) (p : UdpV3Packet) : Type 0 where
  pub constructed : Constructed p
  pub encoded : encode p ≡ ok bytes
  pub fits : length bytes ≤ w.max_udp_payload
  pub wanted_node : expects w.expected_node_id p.digital_node_id ≡ true
  pub recent : at_least w.min_sequence p.sequence ≡ true
  pub rows : All (IsExpected w.expected_outputs) p.outputs
  pub complete : ids_expected w.expected_outputs (output_ids p.outputs) ≡ true

Decoded→Walks :
    (bytes : List ℕ) (w : Wanted) (p : UdpV3Packet)
    → Decoded bytes w p
    → Walks w.expected_outputs p.outputs [] []
Decoded→Walks bytes w p d =
    let v = post_init→IsValid p d.constructed.1 in
    Walked→Walks w.expected_outputs p.outputs [] [] (record {
      constructed = d.constructed.0;
      fresh_ids = (distinct_iff (output_ids p.outputs)).0 v.unique.0;
      fresh_gpios = (distinct_iff (gpios p.outputs)).0 v.unique.1;
      rows = d.rows;
      complete = met-ids_expected w.expected_outputs (output_ids p.outputs) d.complete;
    })

module _ (bytes : List ℕ) (w : Wanted) (p : UdpV3Packet) (d : Decoded bytes w p)
    (r : Parts p bytes) where
  header_facts :
      (unpack header_format r.header ≡ some (header_fields p (length r.payload)))
      × (length r.header ≡ header_length)
  header_facts = let (u, l, _) = packed-unpack header_format _ r.header r.packed in (u, l)

  outputs_back :
      decode_outputs (length p.outputs) w.expected_outputs r.payload [] [] ≡ some p.outputs
  outputs_back =
      decode_outputs-encode_outputs w.expected_outputs p.outputs r.payload [] []
        (Decoded→Walks bytes w p d) r.outputs_encoded

  Parts→decode :
      length (sealed (r.header ++ r.payload)) ≤ w.max_udp_payload
      → decode (sealed (r.header ++ r.payload)) w ≡ some p
  unfolding decode decode_body construct
  Parts→decode fits =
      let v = post_init→IsValid p d.constructed.1 in
      rw
        (
          take-sealed r.header r.payload header_facts.1,
          header_facts.0,
          drop-sealed r.header r.payload header_facts.1 refl,
          outputs_back,
          crc_matches-sealed (r.header ++ r.payload),
          v.apply_at,
          d.constructed.1,
          d.wanted_node,
          d.recent,
          v.schedule,
        )
        (ground (
          arith,
          v.message_type,
          v.flags,
          v.count,
          header_facts.1,
          length-sealed (r.header ++ r.payload),
          length-append r.header r.payload,
        ))

pub Decoded→decode :
    (bytes : List ℕ) (w : Wanted) (p : UdpV3Packet) → Decoded bytes w p → decode bytes w ≡ some p
Decoded→decode bytes w p d =
    let r = encode→Parts p bytes d.encoded in
    rw r.joined at (Parts→decode bytes w p d r (rw r.joined d.fits))
