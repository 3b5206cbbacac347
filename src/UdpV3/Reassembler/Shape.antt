-- ===== src/UdpV3/Reassembler/Shape.antt =====
-- udp_v3.py: the buffers of a receiver have the shape of its expected outputs.
use light_belt.Prelude.{
  ℕ, zero, suc, ◌+◌, ◌≤◌, ◌<◌, ◌≡◌, refl, ap, Bool, true, false, Option, none, some, List, [], ◌∷◌,
  ◌++◌, ◌∙◌, >>=-eq-ok, ◌==◌, arith, inl, inr, Bool-cases, if◌then◌else◌, length, length-append,
  length-take, length-drop, get_elem?, take, drop, replicate, All, All-append, All-take, All-drop,
  Result, ok,
}
use light_belt.Prelude.Sets.{elem}
use light_belt.Wire.Pixels.{Pixel, IsPixel}
use light_belt.UdpV3.Packet.{Table, table_has, table_ids}
use light_belt.UdpV3.Chunk.{UdpV3Chunk, chunk_post_init}
use light_belt.UdpV3.Chunk.Ranges.{IsValidChunk, chunk_post_init→IsValidChunk}
use light_belt.UdpV3.Reassembler.{
  Buffer, Buffers, empty_buffers, find_buffer, conflicts, agrees, check_chunks, received, write_at,
  write_buffer, write_chunks, is_full, pixels_of,
}

-- A pixel that was received has three bytes.
abbrev pub IsEntry : Option Pixel → Type 0
IsEntry none = Unit {0}
IsEntry (some pixel) = IsPixel pixel

abbrev pub Shape : Table → Buffers → Type 0
Shape [] [] = Unit {0}
Shape [] (b ∷ bs) = ⊥
Shape (row ∷ rows) [] = ⊥
Shape ((output_id, gpio, pixel_count) ∷ rows) ((i, b) ∷ bs) =
    ((i ≡ output_id) × (length b ≡ pixel_count) × All IsEntry b) × Shape rows bs

length-replicate-none :
    (n : ℕ) → (length {A = Option Pixel} (replicate n none) ≡ n) × All IsEntry (replicate n none)
length-replicate-none zero = (refl, tt)
length-replicate-none (suc n) = let (e, a) = length-replicate-none n in (ap suc e, (tt, a))

pub empty_buffers-Shape : (table : Table) → Shape table (empty_buffers table)
empty_buffers-Shape [] = tt
empty_buffers-Shape ((output_id, gpio, pixel_count) ∷ rows) =
    let (e, a) = length-replicate-none pixel_count in ((refl, e, a), empty_buffers-Shape rows)

-- The buffer of an expected output is found, and has its length.
pub find_buffer-Shape :
    (table : Table) (bs : Buffers) (output_id gpio pixel_count : ℕ)
    → Shape table bs
    → table_has table output_id gpio pixel_count ≡ true
    → (b : Buffer) × (find_buffer output_id bs ≡ ok b) × (length b ≡ pixel_count) × All IsEntry b
unfolding find_buffer table_has
find_buffer-Shape [] bs output_id gpio pixel_count s h = cc
find_buffer-Shape (row ∷ rows) [] output_id gpio pixel_count s h = absurd s
find_buffer-Shape ((o, g, n) ∷ rows) ((i, b) ∷ bs) output_id gpio pixel_count
      ((same_id, len, valid), s) h =
    elim (Bool-cases (o == output_id)) [
      | inl e ↦ (b, ground arith, ground arith, valid)
      | inr e ↦
          let (b', found, len', valid') =
            find_buffer-Shape rows bs output_id gpio pixel_count s (rw e at h) in
          (b', rw (same_id, e) found, len', valid')
    ]

get_elem?-lt : (b : Buffer) (i : ℕ) → i < length b → (x : Option Pixel) × (get_elem? b i ≡ some x)
get_elem?-lt [] i h = absurd (omega arith)
get_elem?-lt (x ∷ b) zero h = (x, refl)
get_elem?-lt (x ∷ b) (suc i) h = get_elem?-lt b i (omega arith)

agrees_step :
    (target : Buffer) (index : ℕ) (pixel : Pixel) (pixels : List Pixel) (x : Option Pixel)
    (v : Bool)
    → get_elem? target index ≡ some x
    → agrees target (index + 1) pixels ≡ ok v
    → agrees target index (pixel ∷ pixels) ≡ ok (if conflicts x pixel then false else v)
unfolding agrees
agrees_step target index pixel pixels x v e r =
    rw (e, agrees) (elim (Bool-cases (conflicts x pixel)) [ inl c ↦ rw c | inr c ↦ rw c r ])

-- No index of a chunk that fits its buffer is out of range.
agrees-ok :
    (target : Buffer) (index : ℕ) (pixels : List Pixel)
    → index + length pixels ≤ length target
    → (v : Bool) × (agrees target index pixels ≡ ok v)
agrees-ok target index [] h = (true, (unfold agrees in refl))
agrees-ok target index (pixel ∷ pixels) h =
    let (x, e) = get_elem?-lt target index (omega arith) in
    let (v, r) = agrees-ok target (index + 1) pixels (omega arith) in
    ((if conflicts x pixel then false else v), agrees_step target index pixel pixels x v e r)

-- So the first loop of `accept` raises nothing.
pub check_chunks-ok :
    (table : Table) (bs : Buffers) (cs : List UdpV3Chunk)
    → Shape table bs
    → All (λ c. chunk_post_init c ≡ ok tt) cs
    → (v : Bool) × (check_chunks table bs cs ≡ ok v)
unfolding check_chunks
check_chunks-ok table bs [] s h = (true, refl)
check_chunks-ok table bs (c ∷ cs) s (h, hs) =
    elim (Bool-cases (table_has table c.output_id c.gpio c.total_pixel_count)) [
      | inl e ↦
          let (b, found, len, _) =
            find_buffer-Shape table bs c.output_id c.gpio c.total_pixel_count s e in
          let (v, r) =
            agrees-ok b c.chunk_offset c.pixels
              (omega (arith, (chunk_post_init→IsValidChunk c h).range)) in
          let (v', r') = check_chunks-ok table bs cs s hs in
          (
            (if v then v' else false),
            rw (e, found, r, r') (elim (Bool-cases v) [ inl t ↦ rw t | inr t ↦ rw t ]),
          )
      | inr e ↦ (false, rw e)
    ]

-- Each chunk fits a row of the expected outputs.
abbrev pub Fitting : Table → UdpV3Chunk → Type 0
Fitting table c = table_has table c.output_id c.gpio c.total_pixel_count ≡ true

pub check_chunks→Fitting :
    (table : Table) (bs : Buffers) (cs : List UdpV3Chunk)
    → check_chunks table bs cs ≡ ok true
    → All (Fitting table) cs
unfolding check_chunks
check_chunks→Fitting table bs [] h = tt
check_chunks→Fitting table bs (c ∷ cs) h =
    elim (Bool-cases (table_has table c.output_id c.gpio c.total_pixel_count)) [
      | inl e ↦
          let (b, found, h1) = >>=-eq-ok (find_buffer c.output_id bs) _ (rw e at h) in
          let (v, r, h2) = >>=-eq-ok (agrees b c.chunk_offset c.pixels) _ h1 in
          (e, check_chunks→Fitting table bs cs (rest_ok v (check_chunks table bs cs) h2))
      | inr e ↦ let r : ok false ≡ ok true = rw e at h in cc
    ]
  where
    rest_ok :
        (v : Bool) (rest : Result Bool) → (if v then rest else ok false) ≡ ok true → rest ≡ ok true
    rest_ok true rest h = h
    rest_ok false rest h = cc

received_entries :
    (pixels : List Pixel)
    → All IsPixel pixels
    → (length (received pixels) ≡ length pixels) × All IsEntry (received pixels)
received_entries [] h = (refl, tt)
received_entries (pixel ∷ pixels) h =
    let (e, a) = received_entries pixels h.1 in (ap suc e, (h.0, a))

write_at-entries :
    (offset : ℕ) (pixels : List Pixel) (b : Buffer)
    → offset + length pixels ≤ length b
    → All IsPixel pixels
    → All IsEntry b
    → (length (write_at offset pixels b) ≡ length b) × All IsEntry (write_at offset pixels b)
write_at-entries offset pixels b fits v a =
    let (e, entries) = received_entries pixels v in
    (
      omega (
        arith,
        length-append (take offset b) (received pixels ++ drop (offset + length pixels) b),
        length-append (received pixels) (drop (offset + length pixels) b),
        length-take offset b,
        length-drop (offset + length pixels) b,
      ),
      All-append IsEntry (take offset b) _ (All-take IsEntry offset b a) (
          All-append IsEntry (received pixels) _ entries
            (All-drop IsEntry (offset + length pixels) b a)),
    )

write_buffer-Shape :
    (table : Table) (bs : Buffers) (c : UdpV3Chunk)
    → Shape table bs
    → IsValidChunk c
    → Fitting table c
    → Shape table (write_buffer c bs)
unfolding write_buffer table_has
write_buffer-Shape [] [] c s v f = tt
write_buffer-Shape [] (b ∷ bs) c s v f = absurd s
write_buffer-Shape (row ∷ rows) [] c s v f = absurd s
write_buffer-Shape ((o, g, n) ∷ rows) ((i, b) ∷ bs) c ((same_id, len, valid), s) v f =
    elim (Bool-cases (o == c.output_id)) [
      | inl e ↦
          let (len', valid') =
            write_at-entries c.chunk_offset c.pixels b (ground (arith, v.range)) v.channels valid in
          rw (same_id, e) ((refl, len' ∙ len, valid'), s)
      | inr e ↦ rw (same_id, e) ((refl, len, valid), write_buffer-Shape rows bs c s v (rw e at f))
    ]

pub write_chunks-Shape :
    (table : Table) (bs : Buffers) (cs : List UdpV3Chunk)
    → Shape table bs
    → All (λ c. chunk_post_init c ≡ ok tt) cs
    → All (Fitting table) cs
    → Shape table (write_chunks cs bs)
unfolding write_chunks
write_chunks-Shape table bs [] s h f = s
write_chunks-Shape table bs (c ∷ cs) s (h, hs) (f, fs) =
    write_chunks-Shape table (write_buffer c bs) cs
      (write_buffer-Shape table bs c s (chunk_post_init→IsValidChunk c h) f) hs fs

pixels_of-entries :
    (b : Buffer) → All IsEntry b → (length (pixels_of b) ≤ length b) × All IsPixel (pixels_of b)
pixels_of-entries [] a = (omega arith, tt)
pixels_of-entries (none ∷ b) a = let (e, v) = pixels_of-entries b a.1 in (omega arith, v)
pixels_of-entries (some pixel ∷ b) a =
    let (e, v) = pixels_of-entries b a.1 in (omega arith, (a.0, v))

-- A full buffer gives as many pixels as it has places.
pub pixels_of-full : (b : Buffer) → is_full b ≡ true → length (pixels_of b) ≡ length b
pixels_of-full [] h = refl
pixels_of-full (none ∷ b) h = cc
pixels_of-full (some pixel ∷ b) h = ap suc (pixels_of-full b h)

-- The row's buffer is found, and its pixels make a valid output.
pub find_row :
    (table : Table) (bs : Buffers) (output_id : ℕ)
    → Shape table bs
    → elem output_id (table_ids table) ≡ true
    → (limit : ℕ) → All (λ (row : ℕ × ℕ × ℕ). row.2 ≤ limit) table
    → (b : Buffer) × (find_buffer output_id bs ≡ ok b)
      × (length (pixels_of b) ≤ limit)
      × All IsPixel (pixels_of b)
unfolding find_buffer elem
find_row [] bs output_id s h limit small = cc
find_row (row ∷ rows) [] output_id s h limit small = absurd s
find_row ((o, g, n) ∷ rows) ((i, b) ∷ bs) output_id ((same_id, len, valid), s) h limit
      (small, smalls) =
    elim (Bool-cases (o == output_id)) [
      | inl e ↦ let (le, v) = pixels_of-entries b valid in (b, rw (same_id, e), omega arith, v)
      | inr e ↦
          let (b', found, le, v) = find_row rows bs output_id s (rw e at h) limit smalls in
          (b', rw (same_id, e) found, le, v)
    ]
