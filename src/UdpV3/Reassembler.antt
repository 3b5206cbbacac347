-- ===== src/UdpV3/Reassembler.antt =====
-- light_engine/outputs/udp_v3.py: `UdpV3FrameReassembler`, the receiver that puts the chunks of one
-- incomplete frame together. A method returns its result or exception with the object after it.
pub mod Shape
pub mod Invariant
pub mod Total
pub mod Answers
mod Examples
use light_belt.Prelude.{
  ℕ, ◌+◌, Bool, true, false, Option, none, some, List, [], ◌∷◌, ◌++◌, ◌&&◌, ◌==◌, is_some, is_empty,
  leb, not, if◌then◌else◌, length, get_elem?, take, drop, replicate, Result, ok, err, index_error,
  key_error, value_error, ◌>>=◌, ◌>>◌, require,
}
use light_belt.Prelude.Sets.{elem}
use light_belt.Wire.Pixels.{Pixel, max_uint8, max_uint16, max_udp_payload, require_uint}
use light_belt.UdpV3.Frame.{is_key_frame, message_type_frame}
use light_belt.UdpV3.Packet
use light_belt.UdpV3.Packet.{UdpV3Output, UdpV3Packet, Table, table_has}
use light_belt.UdpV3.Chunk
use light_belt.UdpV3.Chunk.{UdpV3Chunk, UdpV3ChunkPacket}
use light_belt.UdpV3.Sequence.{is_newer_sequence}

-- `_identity(...)`: what the chunks of one frame have in common.
pub record Identity : Type 0 where
  pub sequence : ℕ
  pub media : ℕ
  pub apply_at : Option ℕ
  pub flags : ℕ

abbrev pub option_eq : Option ℕ → Option ℕ → Bool
option_eq none none = true
option_eq none (some b) = false
option_eq (some a) none = false
option_eq (some a) (some b) = a == b

-- `==` on the tuples
abbrev pub identity_eq : Identity → Identity → Bool
identity_eq a b =
    a.sequence == b.sequence
    && a.media == b.media
    && option_eq a.apply_at b.apply_at
    && a.flags == b.flags

-- `identity == other`, where the other may be `None`
abbrev pub is_identity : Identity → Option Identity → Bool
is_identity a none = false
is_identity a (some b) = identity_eq a b

abbrev pub Buffer : Type 0
Buffer = List (Option Pixel)

-- `_buffers`, in the order of its keys
abbrev pub Buffers : Type 0
Buffers = List (ℕ × Buffer)

pub record Reassembler : Type 0 where
  pub expected_node_id : ℕ
  pub expected_outputs : Table
  pub active_identity : Option Identity
  pub buffers : Buffers
  pub last_completed_identity : Option Identity
  pub last_completed_sequence : Option ℕ

-- `sequence == 1 and bool(flags & FLAG_KEY_FRAME)`
abbrev pub is_session_start : Identity → Bool
is_session_start i = i.sequence == 1 && is_key_frame i.flags

-- The tests after the reference sequence is found.
abbrev pub can_follow : Identity → Option Identity → Option ℕ → Result Bool
can_follow i none none = ok true
can_follow i none (some reference) =
    if is_session_start i then ok true else is_newer_sequence i.sequence reference
can_follow i (some active) last =
    if i.sequence == active.sequence
    then ok (identity_eq i active)
    else if is_session_start i
    then ok true
    else is_newer_sequence i.sequence active.sequence

unfoldable pub can_start_identity : Reassembler → Identity → Result Bool
can_start_identity r i =
    if is_identity i r.last_completed_identity
    then ok false
    else can_follow i r.active_identity r.last_completed_sequence

-- `[None] * pixel_count` for each expected output
abbrev pub empty_buffers : Table → Buffers
empty_buffers [] = []
empty_buffers ((output_id, gpio, pixel_count) ∷ rows) =
    (output_id, replicate pixel_count none) ∷ empty_buffers rows

-- The loop of `__init__` over the expected outputs.
unfoldable pub check_rows : Table → List ℕ → List ℕ → Result (Unit {0})
check_rows [] seen_ids seen_gpios = ok tt
check_rows ((output_id, gpio, pixel_count) ∷ rows) seen_ids seen_gpios = do
  require_uint output_id max_uint8
  require (not (output_id == 0) && not (elem output_id seen_ids)) value_error
  require_uint gpio max_uint8
  require_uint pixel_count max_uint16
  require (not (pixel_count == 0)) value_error
  require (not (elem gpio seen_gpios)) value_error
  check_rows rows (output_id ∷ seen_ids) (gpio ∷ seen_gpios)

-- `__init__`
unfoldable pub new : ℕ → Table → Result Reassembler
new expected_node_id expected_outputs = do
  require_uint expected_node_id max_uint8
  require (not (expected_node_id == 0)) value_error
  require (not (is_empty expected_outputs) && leb (length expected_outputs) 3) value_error
  check_rows expected_outputs [] []
  ok (record {
    expected_node_id = expected_node_id;
    expected_outputs = expected_outputs;
    active_identity = none;
    buffers = [];
    last_completed_identity = none;
    last_completed_sequence = none;
  })

unfoldable pub begin : Reassembler → Identity → Reassembler
begin r i = record r { active_identity = some i; buffers = empty_buffers r.expected_outputs }

unfoldable pub mark_complete : Reassembler → UdpV3Packet → Identity → Reassembler
mark_complete r p i = record r {
  last_completed_identity = some i;
  last_completed_sequence = some p.sequence;
  active_identity = none;
  buffers = [];
}

-- `self._buffers[output_id]`; a missing key is an error (`KeyError`).
unfoldable pub find_buffer : ℕ → Buffers → Result Buffer
find_buffer output_id [] = err key_error
find_buffer output_id ((i, b) ∷ bs) = if i == output_id then ok b else find_buffer output_id bs

abbrev pub pixel_eq : Pixel → Pixel → Bool
pixel_eq (r, g, b) (r', g', b') = r == r' && g == g' && b == b'

-- `existing is not None and existing != pixel`
abbrev pub conflicts : Option Pixel → Pixel → Bool
conflicts none pixel = false
conflicts (some existing) pixel = not (pixel_eq existing pixel)

-- The inner loop of `accept`: `target[index]` for each pixel, which may be out of range. `ok false`
-- is the `return None` at a pixel that was received with another colour.
unfoldable pub agrees : Buffer → ℕ → List Pixel → Result Bool
agrees target index [] = ok true
agrees target index (pixel ∷ pixels) =
    let rest = agrees target (index + 1) pixels in
    elim (get_elem? target index) [
      | none ↦ err index_error
      | some existing ↦ if conflicts existing pixel then ok false else rest
    ]

-- The first loop of `accept` over the chunks: each one fits its output, and no pixel conflicts.
unfoldable pub check_chunks : Table → Buffers → List UdpV3Chunk → Result Bool
check_chunks expected buffers [] = ok true
check_chunks expected buffers (c ∷ cs) =
    let rest = check_chunks expected buffers cs in
    if table_has expected c.output_id c.gpio c.total_pixel_count
    then (do
      target ← find_buffer c.output_id buffers
      fine ← agrees target c.chunk_offset c.pixels
      if fine then rest else ok false)
    else ok false

abbrev pub received : List Pixel → Buffer
received [] = []
received (pixel ∷ pixels) = some pixel ∷ received pixels

-- `target[offset : offset + len(pixels)] = pixels`
abbrev pub write_at : ℕ → List Pixel → Buffer → Buffer
write_at offset pixels target =
    take offset target ++ (received pixels ++ drop (offset + length pixels) target)

-- The write to the list that `_buffers[output_id]` holds.
unfoldable pub write_buffer : UdpV3Chunk → Buffers → Buffers
write_buffer c [] = []
write_buffer c ((i, b) ∷ bs) =
    let rest = write_buffer c bs in
    if i == c.output_id then (i, write_at c.chunk_offset c.pixels b) ∷ bs else (i, b) ∷ rest

-- The second loop over the chunks.
unfoldable pub write_chunks : List UdpV3Chunk → Buffers → Buffers
write_chunks [] buffers = buffers
write_chunks (c ∷ cs) buffers = write_chunks cs (write_buffer c buffers)

abbrev pub is_full : Buffer → Bool
is_full [] = true
is_full (pixel ∷ b) = is_some pixel && is_full b

-- `all(all(pixel is not None for pixel in values) for values in self._buffers.values())`
abbrev pub all_full : Buffers → Bool
all_full [] = true
all_full ((i, b) ∷ bs) = is_full b && all_full bs

-- `pixel for pixel in buffer if pixel is not None`
abbrev pub pixels_of : Buffer → List Pixel
pixels_of [] = []
pixels_of (none ∷ b) = pixels_of b
pixels_of (some pixel ∷ b) = pixel ∷ pixels_of b

-- The outputs of the finished frame, in the order of the expected outputs.
unfoldable pub collect : Table → Buffers → Result (List UdpV3Output)
collect [] buffers = ok []
collect ((output_id, gpio, pixel_count) ∷ rows) buffers = do
  b ← find_buffer output_id buffers
  let o : UdpV3Output = record { output_id = output_id; gpio = gpio; pixels = pixels_of b }
  Packet.output_post_init o
  os ← collect rows buffers
  ok (o ∷ os)

abbrev pub frame_of : Reassembler → Identity → List UdpV3Output → UdpV3Packet
frame_of r i outputs = record {
  digital_node_id = r.expected_node_id;
  sequence = i.sequence;
  media_timestamp_us = i.media;
  outputs = outputs;
  apply_at_us = i.apply_at;
  flags = i.flags;
  message_type = message_type_frame;
}

-- The constructors of the finished frame; an exception of theirs leaves `accept`.
unfoldable pub finish : Reassembler → Identity → Result UdpV3Packet
finish r i = do
  outputs ← collect r.expected_outputs r.buffers
  Packet.post_init (frame_of r i outputs)
  ok (frame_of r i outputs)

-- `accept` from the writes on.
abbrev pub complete :
    Reassembler → Identity → Result UdpV3Packet → Result (Option UdpV3Packet) × Reassembler
complete r i (ok p) = (ok (some p), mark_complete r p i)
complete r i (err e) = (err e, r)

unfoldable pub store :
    Reassembler
    → Identity
    → List UdpV3Chunk
    → Result Bool
    → Result (Option UdpV3Packet) × Reassembler
store r i chunks (ok true) =
    let written : Reassembler = record r { buffers = write_chunks chunks r.buffers } in
    if all_full written.buffers then complete written i (finish written i) else (ok none, written)
store r i chunks (ok false) = (ok none, r)
store r i chunks (err e) = (err e, r)

-- The receiver that the chunks of this identity are written to.
unfoldable pub opened : Reassembler → Identity → Reassembler
opened r i = if is_identity i r.active_identity then r else begin r i

abbrev pub chunk_identity : UdpV3ChunkPacket → Identity
chunk_identity p = record {
  sequence = p.sequence;
  media = p.media_timestamp_us;
  apply_at = p.apply_at_us;
  flags = p.flags;
}

abbrev pub frame_identity : UdpV3Packet → Identity
frame_identity p = record {
  sequence = p.sequence;
  media = p.media_timestamp_us;
  apply_at = p.apply_at_us;
  flags = p.flags;
}

-- `accept` on a chunk packet.
unfoldable pub accept_chunks :
    Reassembler → UdpV3ChunkPacket → Result Bool → Result (Option UdpV3Packet) × Reassembler
accept_chunks r p (ok true) =
    let o = opened r (chunk_identity p) in
    store o (chunk_identity p) p.chunks (check_chunks o.expected_outputs o.buffers p.chunks)
accept_chunks r p (ok false) = (ok none, r)
accept_chunks r p (err e) = (err e, r)

-- `accept` on a whole frame.
unfoldable pub accept_frame :
    Reassembler → UdpV3Packet → Result Bool → Result (Option UdpV3Packet) × Reassembler
accept_frame r p (ok true) = (ok (some p), mark_complete r p (frame_identity p))
accept_frame r p (ok false) = (ok none, r)
accept_frame r p (err e) = (err e, r)

-- The arguments of the two calls of `decode`.
abbrev pub frame_wanted : Reassembler → Packet.Wanted
frame_wanted r = record {
  expected_node_id = some r.expected_node_id;
  expected_outputs = some r.expected_outputs;
  min_sequence = none;
  max_udp_payload = max_udp_payload;
}

unfoldable pub accept : Reassembler → List ℕ → Result (Option UdpV3Packet) × Reassembler
accept r bytes = elim (Packet.decode bytes (frame_wanted r)) [
  | some p ↦ accept_frame r p (can_start_identity r (frame_identity p))
  | none ↦ elim (Chunk.decode bytes (some r.expected_node_id) max_udp_payload) [
    | some p ↦ accept_chunks r p (can_start_identity r (chunk_identity p))
    | none ↦ (ok none, r)
  ]
]
