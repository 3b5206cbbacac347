-- ===== src/UdpV3/Reassembler/Invariant.antt =====
-- udp_v3.py: the invariant of a receiver, and that its parts raise nothing and keep it.
use light_belt.Prelude.{
  ℕ, ◌≤◌, ◌<◌, ◌≡◌, suc, refl, ap, Bool, true, false, Option, none, some, List, [], ◌∷◌, ◌&&◌, ◌==◌,
  not, leb, is_empty, arith, inl, inr, Bool-cases, ==_refl, ||-true, if◌then◌else◌, length, All,
  Result, ok,
}
use light_belt.Prelude.Sets.{elem, distinct}
use light_belt.Wire.Pixels.{max_uint8, max_uint16, max_uint32}
use light_belt.UdpV3.Packet
use light_belt.UdpV3.Packet.{UdpV3Output, UdpV3Packet, Table, table_ids, output_ids, gpios}
use light_belt.UdpV3.Packet.Outputs.{IsValidOutput→output_post_init}
use light_belt.UdpV3.Chunk
use light_belt.UdpV3.Chunk.{UdpV3Chunk, UdpV3ChunkPacket}
use light_belt.UdpV3.Sequence.{is_newer_sequence, is_newer_sequence_total, is_ahead}
use light_belt.UdpV3.Reassembler.{
  Identity, Reassembler, Buffers, identity_eq, is_session_start, is_identity, can_follow,
  can_start_identity, mark_complete, write_chunks, all_full, collect, frame_of, finish, complete,
  store, chunk_identity, pixels_of,
}
use light_belt.UdpV3.Reassembler.Shape.{Shape, find_row}

abbrev pub IsRow : ℕ × ℕ × ℕ → Type 0
IsRow (output_id, gpio, pixel_count) =
    ((0 < output_id) × (output_id ≤ max_uint8))
    × (gpio ≤ max_uint8)
    × ((0 < pixel_count) × (pixel_count ≤ max_uint16))

abbrev pub table_gpios : Table → List ℕ
table_gpios [] = []
table_gpios ((output_id, gpio, pixel_count) ∷ rows) = gpio ∷ table_gpios rows

-- What `__init__` checks of the expected outputs.
pub record IsTable (table : Table) : Type 0 where
  pub rows : All IsRow table
  pub count : (0 < length table) × (length table ≤ 3)
  pub ids : distinct (table_ids table) ≡ true
  pub gpios : distinct (table_gpios table) ≡ true

-- The identity and the node make a frame that its constructor accepts, whatever outputs it has.
abbrev pub IsFrameOf : ℕ → Identity → Type 0
IsFrameOf node i =
    (outputs : List UdpV3Output)
    → (not (is_empty outputs) && leb (length outputs) 3) ≡ true
    → distinct (output_ids outputs) ≡ true
    → distinct (gpios outputs) ≡ true
    → Packet.post_init (record {
      digital_node_id = node;
      sequence = i.sequence;
      media_timestamp_us = i.media;
      outputs = outputs;
      apply_at_us = i.apply_at;
      flags = i.flags;
      message_type = 1;
    })
      ≡ ok tt

-- No frame is open, or an open one has a valid identity and buffers of the expected shape.
abbrev pub IsOpen : Reassembler → Option Identity → Type 0
IsOpen r none = r.buffers ≡ []
IsOpen r (some i) =
    (i.sequence ≤ max_uint32) × IsFrameOf r.expected_node_id i × Shape r.expected_outputs r.buffers

abbrev pub IsSequence : Option ℕ → Type 0
IsSequence none = Unit {0}
IsSequence (some n) = n ≤ max_uint32

pub record Inv (r : Reassembler) : Type 0 where
  pub table : IsTable r.expected_outputs
  pub open_frame : IsOpen r r.active_identity
  pub last : IsSequence r.last_completed_sequence

pub chunk_packet-IsFrameOf :
    (p : UdpV3ChunkPacket)
    → Chunk.post_init p ≡ ok tt
    → (p.sequence ≤ max_uint32) × IsFrameOf p.digital_node_id (chunk_identity p)
unfolding Chunk.post_init Packet.post_init
chunk_packet-IsFrameOf p h = (ground arith, λ outputs some_outputs ids gs. ground arith)

pub frame-sequence : (p : UdpV3Packet) → Packet.post_init p ≡ ok tt → p.sequence ≤ max_uint32
unfolding Packet.post_init
frame-sequence p h = ground arith

follow-ok :
    (i : Identity) (reference : ℕ)
    → i.sequence ≤ max_uint32
    → reference ≤ max_uint32
    → (v : Bool) × ((if is_session_start i then ok true else is_newer_sequence i.sequence reference)
        ≡ ok v)
follow-ok i reference h k =
    let e = is_newer_sequence_total i.sequence reference h k in
    elim (Bool-cases (is_session_start i)) [
      | inl s ↦ (true, rw s)
      | inr s ↦ (is_ahead i.sequence reference, rw s e)
    ]

can_follow-ok :
    (r : Reassembler) (i : Identity) (active : Option Identity) (last : Option ℕ)
    → IsOpen r active
    → IsSequence last
    → i.sequence ≤ max_uint32
    → (v : Bool) × (can_follow i active last ≡ ok v)
can_follow-ok r i none none o l h = (true, refl)
can_follow-ok r i none (some n) o l h = follow-ok i n h l
can_follow-ok r i (some a) last o l h =
    let (v, e) = follow-ok i a.sequence h o.0 in
    elim (Bool-cases (i.sequence == a.sequence)) [
      | inl s ↦ (identity_eq i a, rw s)
      | inr s ↦ (v, rw s e)
    ]

-- The tests on the sequence raise nothing on numbers of 32 bits.
pub can_start-ok :
    (r : Reassembler) (i : Identity)
    → Inv r
    → i.sequence ≤ max_uint32
    → (v : Bool) × (can_start_identity r i ≡ ok v)
unfolding can_start_identity
can_start-ok r i inv h =
    let (v, e) =
      can_follow-ok r i r.active_identity r.last_completed_sequence inv.open_frame inv.last h in
    elim (Bool-cases (is_identity i r.last_completed_identity)) [
      | inl s ↦ (false, rw s)
      | inr s ↦ (v, rw s e)
    ]

-- The finished frame: its outputs are those of the table, and valid.
record Collected (rows : Table) (outputs : List UdpV3Output) : Type 0 where
  same_ids : output_ids outputs ≡ table_ids rows
  same_gpios : gpios outputs ≡ table_gpios rows
  same_length : length outputs ≡ length rows

module _ (table : Table) (bs : Buffers) (s : Shape table bs)
    (small : All (λ (row : ℕ × ℕ × ℕ). row.2 ≤ max_uint16) table) where
  collect-ok :
      (rows : Table)
      → All IsRow rows
      → All (λ output_id. elem output_id (table_ids table) ≡ true) (table_ids rows)
      → (outputs : List UdpV3Output) × (collect rows bs ≡ ok outputs) × Collected rows outputs
  unfolding collect
  collect-ok [] h m = ([], refl, record { same_ids = refl; same_gpios = refl; same_length = refl })
  collect-ok ((output_id, gpio, pixel_count) ∷ rows) (h, hs) (m, ms) =
      let (b, found, count, channels) = find_row table bs output_id s m max_uint16 small in
      let o : UdpV3Output = record { output_id = output_id; gpio = gpio; pixels = pixels_of b } in
      let built =
        IsValidOutput→output_post_init o
          (record { id = h.0; gpio = h.1; count = count; channels = channels }) in
      let (os, others, c) = collect-ok rows hs ms in
      (
        o ∷ os,
        rw (found, built, others),
        record {
          same_ids = ap (◌∷◌ output_id) c.same_ids;
          same_gpios = ap (◌∷◌ gpio) c.same_gpios;
          same_length = ap suc c.same_length;
        },
      )

small_rows : (rows : Table) → All IsRow rows → All (λ (row : ℕ × ℕ × ℕ). row.2 ≤ max_uint16) rows
small_rows [] h = tt
small_rows ((output_id, gpio, pixel_count) ∷ rows) (h, hs) = (h.2.1, small_rows rows hs)

elem-cons :
    (x : ℕ) (xs ys : List ℕ) → All (λ y. elem y xs ≡ true) ys → All (λ y. elem y (x ∷ xs) ≡ true) ys
unfolding elem
elem-cons x xs [] h = tt
elem-cons x xs (y ∷ ys) h = (rw h.0 (||-true (x == y)), elem-cons x xs ys h.1)

elem_self : (xs : List ℕ) → All (λ x. elem x xs ≡ true) xs
unfolding elem
elem_self [] = tt
elem_self (x ∷ xs) = (rw (==_refl x), elem-cons x xs xs (elem_self xs))

finish-ok :
    (r : Reassembler) (i : Identity)
    → IsTable r.expected_outputs
    → Shape r.expected_outputs r.buffers
    → IsFrameOf r.expected_node_id i
    → (p : UdpV3Packet) × (finish r i ≡ ok p) × (p.sequence ≡ i.sequence)
unfolding finish
finish-ok r i t s f =
    let (outputs, collected, c) =
      collect-ok r.expected_outputs r.buffers s (small_rows r.expected_outputs t.rows)
        r.expected_outputs t.rows (elem_self (table_ids r.expected_outputs)) in
    let built =
      f outputs (ground (arith, t.count, c.same_length)) (rw c.same_ids t.ids)
        (rw c.same_gpios t.gpios) in
    (frame_of r i outputs, rw (collected, built), refl)

-- A result, and a receiver that keeps the invariant.
abbrev pub Fine : Result (Option UdpV3Packet) × Reassembler → Type 0
Fine (answer, r) = ((found : Option UdpV3Packet) × (answer ≡ ok found)) × Inv r

pub mark_complete-Inv :
    (r : Reassembler) (p : UdpV3Packet) (i : Identity)
    → IsTable r.expected_outputs
    → p.sequence ≤ max_uint32
    → Inv (mark_complete r p i)
unfolding mark_complete
mark_complete-Inv r p i t h = record { table = t; open_frame = refl; last = h }

pub complete-Fine :
    (r : Reassembler) (i : Identity) (p : UdpV3Packet)
    → IsTable r.expected_outputs
    → p.sequence ≤ max_uint32
    → Fine (complete r i (ok p))
complete-Fine r i p t h = ((some p, refl), mark_complete-Inv r p i t h)

-- A receiver whose open frame has this identity.
pub record IsOpened (r : Reassembler) (i : Identity) : Type 0 where
  pub table : IsTable r.expected_outputs
  pub active :
      (a : Identity) × (r.active_identity ≡ some a)
      × (a.sequence ≤ max_uint32)
      × IsFrameOf r.expected_node_id a
  pub sequence : i.sequence ≤ max_uint32
  pub frame : IsFrameOf r.expected_node_id i
  pub shape : Shape r.expected_outputs r.buffers
  pub last : IsSequence r.last_completed_sequence

pub IsOpened-Inv : (r : Reassembler) (i : Identity) → IsOpened r i → Inv r
IsOpened-Inv r i o =
    let (a, e, small, frame) = o.active in
    record { table = o.table; open_frame = rw e (small, frame, o.shape); last = o.last }

pub store-true-Fine :
    (r : Reassembler) (i : Identity) (chunks : List UdpV3Chunk)
    → IsOpened r i
    → Shape r.expected_outputs (write_chunks chunks r.buffers)
    → Fine (store r i chunks (ok true))
unfolding store
store-true-Fine r i chunks o s =
    let w : Reassembler = record r { buffers = write_chunks chunks r.buffers } in
    let (p, finished, same) = finish-ok w i o.table s o.frame in
    elim (Bool-cases (all_full (write_chunks chunks r.buffers))) [
      | inl e ↦ rw (e, finished) (complete-Fine w i p o.table (rw same o.sequence))
      | inr e ↦ rw e (
        (none, refl),
        IsOpened-Inv w i (record {
          table = o.table;
          active = o.active;
          sequence = o.sequence;
          frame = o.frame;
          shape = s;
          last = o.last;
        }),
      )
    ]
