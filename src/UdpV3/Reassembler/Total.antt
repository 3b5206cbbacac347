-- ===== src/UdpV3/Reassembler/Total.antt =====
-- udp_v3.py: a configured receiver never raises, whatever it is sent, and keeps its invariant.
use light_belt.Prelude.{
  ℕ, ◌≤◌, ◌≡◌, refl, sym, subst, true, false, Option, none, some, List, [], ◌∷◌, ==→eq, arith,
  length, ◌<◌, inl, inr, Bool-cases, Option-cases, All, ok, Bool,
}
use light_belt.Prelude.Sets.{elem, distinct_iff, Fresh}
use light_belt.Wire.Bytes.{AreBytes}
use light_belt.Wire.Pixels.{max_uint32, max_udp_payload}
use light_belt.UdpV3.Packet
use light_belt.UdpV3.Packet.{UdpV3Packet, Table, table_ids}
use light_belt.UdpV3.Packet.Codec.{packet_decode_iff}
use light_belt.UdpV3.Chunk
use light_belt.UdpV3.Chunk.{UdpV3Chunk, UdpV3ChunkPacket, chunk_post_init}
use light_belt.UdpV3.Chunk.Codec.{chunk_decode_iff}
use light_belt.UdpV3.Reassembler.{
  Identity, Reassembler, is_identity, can_start_identity, new, check_rows, begin, check_chunks,
  store, opened, chunk_identity, frame_identity, accept_chunks, accept_frame, frame_wanted, accept,
}
use light_belt.UdpV3.Reassembler.Shape.{
  empty_buffers-Shape, check_chunks-ok, check_chunks→Fitting, write_chunks-Shape,
}
use light_belt.UdpV3.Reassembler.Invariant.{
  IsRow, table_gpios, IsFrameOf, IsOpen, IsSequence, Inv, Fine, IsOpened, IsOpened-Inv,
  chunk_packet-IsFrameOf, frame-sequence, can_start-ok, mark_complete-Inv, store-true-Fine,
}

store-Fine :
    (r : Reassembler) (i : Identity) (chunks : List UdpV3Chunk)
    → IsOpened r i
    → All (λ c. chunk_post_init c ≡ ok tt) chunks
    → Fine (store r i chunks (check_chunks r.expected_outputs r.buffers chunks))
unfolding store
store-Fine r i chunks o h =
    let (v, e) = check_chunks-ok r.expected_outputs r.buffers chunks o.shape h in rw e (go v e)
  where
    go :
        (v : Bool)
        → check_chunks r.expected_outputs r.buffers chunks ≡ ok v
        → Fine (store r i chunks (ok v))
    go true e = store-true-Fine r i chunks o (
        write_chunks-Shape r.expected_outputs r.buffers chunks o.shape h
          (check_chunks→Fitting r.expected_outputs r.buffers chunks e))
    go false e = ((none, refl), IsOpened-Inv r i o)

module _ (r : Reassembler) (i : Identity) (inv : Inv r) (small : i.sequence ≤ max_uint32)
    (frame : IsFrameOf r.expected_node_id i) where
  begin-IsOpened : IsOpened (begin r i) i
  unfolding begin
  begin-IsOpened = record {
    table = inv.table;
    active = (i, refl, small, frame);
    sequence = small;
    frame = frame;
    shape = empty_buffers-Shape r.expected_outputs;
    last = inv.last;
  }

  kept-IsOpened : (a : Identity) → r.active_identity ≡ some a → IsOpened r i
  kept-IsOpened a e =
      let (low, whole, shape) = subst (IsOpen r) e inv.open_frame in
      record {
        table = inv.table;
        active = (a, e, low, whole);
        sequence = small;
        frame = frame;
        shape = shape;
        last = inv.last;
      }

  active_of : (o : Option Identity) → r.active_identity ≡ o → is_identity i o ≡ true → IsOpened r i
  active_of none e same = cc
  active_of (some a) e same = kept-IsOpened a e

  opened-IsOpened : IsOpened (opened r i) i
  unfolding opened
  opened-IsOpened = elim (Bool-cases (is_identity i r.active_identity)) [
    | inl same ↦ rw same (active_of r.active_identity refl same)
    | inr other ↦ rw other begin-IsOpened
  ]

accept_frame-Fine :
    (r : Reassembler) (p : UdpV3Packet)
    → Inv r
    → p.sequence ≤ max_uint32
    → Fine (accept_frame r p (can_start_identity r (frame_identity p)))
accept_frame-Fine r p inv small =
    let (v, e) = can_start-ok r (frame_identity p) inv small in rw e (go v)
  where
    go : (v : Bool) → Fine (accept_frame r p (ok v))
    go true =
        unfold accept_frame in
        ((some p, refl), mark_complete-Inv r p (frame_identity p) inv.table small)
    go false = unfold accept_frame in ((none, refl), inv)

accept_chunks-Fine :
    (r : Reassembler) (p : UdpV3ChunkPacket)
    → Inv r
    → Chunk.Constructed p
    → p.digital_node_id ≡ r.expected_node_id
    → Fine (accept_chunks r p (can_start_identity r (chunk_identity p)))
accept_chunks-Fine r p inv (hc, hp) node =
    let (small, frame) = chunk_packet-IsFrameOf p hp in
    let (v, e) = can_start-ok r (chunk_identity p) inv small in
    rw e (go v small (subst (λ (n : ℕ). IsFrameOf n (chunk_identity p)) node frame))
  where
    go :
        (v : Bool)
        → p.sequence ≤ max_uint32
        → IsFrameOf r.expected_node_id (chunk_identity p)
        → Fine (accept_chunks r p (ok v))
    go true small frame =
        unfold accept_chunks in
        store-Fine (opened r (chunk_identity p)) (chunk_identity p) p.chunks
          (opened-IsOpened r (chunk_identity p) inv small frame) hc
    go false small frame = unfold accept_chunks in ((none, refl), inv)

module _ (r : Reassembler) (bytes : List ℕ) where
  pub accept-whole :
      (p : UdpV3Packet)
      → Packet.decode bytes (frame_wanted r) ≡ some p
      → accept r bytes ≡ accept_frame r p (can_start_identity r (frame_identity p))
  unfolding accept
  accept-whole p e = rw (e, accept)

  module _ (e : Packet.decode bytes (frame_wanted r) ≡ none) where
    pub accept-chunk :
        (p : UdpV3ChunkPacket)
        → Chunk.decode bytes (some r.expected_node_id) max_udp_payload ≡ some p
        → accept r bytes ≡ accept_chunks r p (can_start_identity r (chunk_identity p))
    unfolding accept
    accept-chunk p f = rw (e, accept) (rw (f, accept))

    pub accept-noise :
        Chunk.decode bytes (some r.expected_node_id) max_udp_payload ≡ none
        → accept r bytes ≡ (ok none, r)
    unfolding accept
    accept-noise f = rw (e, accept) (rw (f, accept))

-- Whatever bytes arrive, a receiver that keeps its invariant answers with a frame or with nothing,
-- raises no exception, and keeps the invariant.
pub accept-Fine :
    (r : Reassembler) (bytes : List ℕ) → AreBytes bytes → Inv r → Fine (accept r bytes)
accept-Fine r bytes a inv = elim (Option-cases (Packet.decode bytes (frame_wanted r))) [
  | inr (p, e) ↦
      let d = (packet_decode_iff bytes (frame_wanted r) p a).0 e in
      rw (accept-whole r bytes p e) (accept_frame-Fine r p inv (frame-sequence p d.constructed.1))
  | inl e ↦ elim (Option-cases (Chunk.decode bytes (some r.expected_node_id) max_udp_payload)) [
    | inr (p, f) ↦
        let d = (chunk_decode_iff bytes (some r.expected_node_id) max_udp_payload p a).0 f in
        rw (accept-chunk r bytes e p f) (
          accept_chunks-Fine r p inv d.constructed
            (==→eq p.digital_node_id r.expected_node_id d.wanted_node))
    | inl f ↦ rw (accept-noise r bytes e f) ((none, refl), inv)
  ]
]

-- The receiver after a list of datagrams.
abbrev pub after : Reassembler → List (List ℕ) → Reassembler
after r [] = r
after r (d ∷ ds) = after (accept r d).1 ds

after-Inv : (r : Reassembler) (ds : List (List ℕ)) → All AreBytes ds → Inv r → Inv (after r ds)
after-Inv r [] a inv = inv
after-Inv r (d ∷ ds) (a, as_bytes) inv =
    after-Inv (accept r d).1 ds as_bytes (accept-Fine r d a inv).1

-- What one round of the loop of `__init__` lets through.
IsRow-facts :
    (output_id gpio pixel_count : ℕ) (rows : Table) (seen_ids seen_gpios : List ℕ)
    → check_rows ((output_id, gpio, pixel_count) ∷ rows) seen_ids seen_gpios ≡ ok tt
    → IsRow (output_id, gpio, pixel_count)
      × (elem output_id seen_ids ≡ false)
      × (elem gpio seen_gpios ≡ false)
      × (check_rows rows (output_id ∷ seen_ids) (gpio ∷ seen_gpios) ≡ ok tt)
unfolding check_rows
IsRow-facts output_id gpio pixel_count rows seen_ids seen_gpios h = ground arith

check_rows→Fresh :
    (rows : Table) (seen_ids seen_gpios : List ℕ)
    → check_rows rows seen_ids seen_gpios ≡ ok tt
    → All IsRow rows × Fresh seen_ids (table_ids rows) × Fresh seen_gpios (table_gpios rows)
check_rows→Fresh [] seen_ids seen_gpios h = (tt, tt, tt)
check_rows→Fresh ((output_id, gpio, pixel_count) ∷ rows) seen_ids seen_gpios h =
    let (row, new_id, new_gpio, rest) =
      IsRow-facts output_id gpio pixel_count rows seen_ids seen_gpios h in
    let (valid, ids, gs) = check_rows→Fresh rows (output_id ∷ seen_ids) (gpio ∷ seen_gpios) rest in
    ((row, valid), (new_id, ids), (new_gpio, gs))

new-facts :
    (node : ℕ) (table : Table) (r : Reassembler)
    → new node table ≡ ok r
    → (check_rows table [] [] ≡ ok tt)
      × ((0 < length table) × (length table ≤ 3))
      × (r.expected_outputs ≡ table)
      × (r.active_identity ≡ none)
      × (r.buffers ≡ [])
      × (r.last_completed_sequence ≡ none)
unfolding new
new-facts node table r h = ground arith

new-Inv : (node : ℕ) (table : Table) (r : Reassembler) → new node table ≡ ok r → Inv r
new-Inv node table r h =
    let (checked, count, same, idle, no_buffers, no_last) = new-facts node table r h in
    let (rows, ids, gs) = check_rows→Fresh table [] [] checked in
    record {
      table = rw same (record {
        rows = rows;
        count = count;
        ids = (distinct_iff (table_ids table)).1 ids;
        gpios = (distinct_iff (table_gpios table)).1 gs;
      });
      open_frame = subst (IsOpen r) (sym idle) no_buffers;
      last = subst IsSequence (sym no_last) tt;
    }

-- A receiver that `__init__` accepted raises no exception on any string of bytes, after any strings
-- of bytes: it answers with a frame or with nothing.
pub accept_total :
    (node : ℕ) (table : Table) (r : Reassembler) (before : List (List ℕ)) (bytes : List ℕ)
    → new node table ≡ ok r
    → All AreBytes before
    → AreBytes bytes
    → (found : Option UdpV3Packet) × ((accept (after r before) bytes).0 ≡ ok found)
accept_total node table r before bytes h as_bytes a =
    (accept-Fine (after r before) bytes a (after-Inv r before as_bytes (new-Inv node table r h))).0
