-- ===== src/Ddp.antt =====
-- light_engine/outputs/ddp_output.py: `encode_ddp_packets`, which cuts a frame of RGB pixels into
-- DDP datagrams.
pub mod Packets
mod Examples
use light_belt.Prelude.{
  ℕ, zero, suc, ◌+◌, ◌-◌, ◌/◌, ◌%◌, Bool, Option, none, some, List, [], ◌∷◌, ◌++◌, ◌==◌, ltb, leb,
  not, is_empty, if◌then◌else◌, min, length, take, drop, Result, ok, err, value_error, ◌>>=◌, ◌>>◌,
  require,
}
use light_belt.Prelude.Bits.{shr, low_bits}
use light_belt.Wire.Pixels.{Pixel}

abbrev pub ddp_flags_ver1 : ℕ
ddp_flags_ver1 = 0x40

abbrev pub ddp_flags_push : ℕ
ddp_flags_push = 0x01

abbrev pub ddp_type_rgb24 : ℕ
ddp_type_rgb24 = 0x0B

abbrev pub ddp_id_display : ℕ
ddp_id_display = 0x01

-- `payload.extend((red & 0xFF, green & 0xFF, blue & 0xFF))` for each pixel
unfoldable pub channels : List Pixel → List ℕ
channels [] = []
channels ((red, green, blue) ∷ pixels) =
    low_bits red 8 ∷ low_bits green 8 ∷ low_bits blue 8 ∷ channels pixels

-- A frame of no pixels is sent as one black pixel.
unfoldable pub frame_payload : List Pixel → List ℕ
unfolding channels
frame_payload pixels = if is_empty (channels pixels) then 0 ∷ 0 ∷ 0 ∷ [] else channels pixels

-- `if seq == 0: seq = 1`
abbrev pub nonzero_seq : ℕ → ℕ
nonzero_seq seq = if seq == 0 then 1 else seq

abbrev pub first_seq : ℕ → ℕ
first_seq sequence = nonzero_seq (low_bits sequence 4)

abbrev pub next_seq : ℕ → ℕ
next_seq seq = nonzero_seq (low_bits (seq + 1) 4)

-- `DDP_FLAGS_VER1 | (DDP_FLAGS_PUSH if is_last else 0)`; the bits are apart, so `|` is the sum.
abbrev pub packet_flags : Bool → ℕ
packet_flags is_last = ddp_flags_ver1 + (if is_last then ddp_flags_push else 0)

abbrev pub packet_header : Bool → ℕ → ℕ → ℕ → List ℕ
packet_header is_last seq channel_offset chunk_length =
    packet_flags is_last
    ∷ seq
    ∷ ddp_type_rgb24
    ∷ ddp_id_display
    ∷ low_bits (shr channel_offset 24) 8
    ∷ low_bits (shr channel_offset 16) 8
    ∷ low_bits (shr channel_offset 8) 8
    ∷ low_bits channel_offset 8
    ∷ low_bits (shr chunk_length 8) 8
    ∷ low_bits chunk_length 8
    ∷ []

-- The body of the loop: the packet from `channel_offset` to `next_offset`.
unfoldable pub packet_at : List ℕ → ℕ → ℕ → ℕ → List ℕ
packet_at payload seq channel_offset next_offset =
    let chunk = take (next_offset - channel_offset) (drop channel_offset payload) in
    packet_header (leb (length payload) next_offset) seq channel_offset (length chunk) ++ chunk

-- `while channel_offset < channel_count`; `none` means that the fuel ran out.
unfoldable pub packet_loop : ℕ → List ℕ → ℕ → ℕ → ℕ → Option (List (List ℕ))
packet_loop zero payload limit channel_offset seq = none
packet_loop (suc fuel) payload limit channel_offset seq =
    let next_offset = min (channel_offset + limit) (length payload) in
    let rest = packet_loop fuel payload limit next_offset (next_seq seq) in
    if ltb channel_offset (length payload)
    then elim rest [
      | none ↦ none
      | some packets ↦ some (packet_at payload seq channel_offset next_offset ∷ packets)
    ]
    else some []

-- Each round moves the offset by a channel at least, so the payload's length is enough fuel.
unfoldable pub encode_ddp_packets : List Pixel → ℕ → ℕ → Result (Option (List (List ℕ)))
unfolding frame_payload
encode_ddp_packets pixels sequence max_channels_per_packet = do
  require (not (max_channels_per_packet == 0)) value_error
  let limit = max_channels_per_packet - max_channels_per_packet % 3
  require (not (limit == 0)) value_error
  let payload = frame_payload pixels
  ok (packet_loop (suc (length payload)) payload limit 0 (first_seq sequence))
