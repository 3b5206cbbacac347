-- ===== src/UdpV3/Reassembler/Answers.antt =====
-- udp_v3.py: what a receiver's answer says of the frames that it answered before.
use light_belt.Prelude.{
  ℕ, ◌≡◌, refl, true, false, Option, none, some, List, [], inl, inr, Bool, Bool-cases, Option-cases,
  Result, ok, err, ok-injective, >>=-eq-ok,
}
use light_belt.Wire.Pixels.{max_udp_payload}
use light_belt.UdpV3.Packet
use light_belt.UdpV3.Packet.{UdpV3Packet}
use light_belt.UdpV3.Chunk
use light_belt.UdpV3.Chunk.{UdpV3Chunk, UdpV3ChunkPacket}
use light_belt.UdpV3.Reassembler.{
  Identity, Reassembler, is_identity, identity_eq, can_start_identity, mark_complete, check_chunks,
  write_chunks, all_full, collect, frame_of, finish, complete, store, opened, chunk_identity,
  frame_identity, accept_chunks, accept_frame, frame_wanted, accept,
}
use light_belt.UdpV3.Reassembler.Total.{accept-whole, accept-chunk, accept-noise}

-- An answer was not the last one, and the receiver after it is idle and remembers it.
record Answered (r r' : Reassembler) (p : UdpV3Packet) : Type 0 where
  new_identity : is_identity (frame_identity p) r.last_completed_identity ≡ false
  remembered : r'.last_completed_identity ≡ some (frame_identity p)
  last_sequence : r'.last_completed_sequence ≡ some p.sequence
  idle : (r'.active_identity ≡ none) × (r'.buffers ≡ [])

abbrev Answers : Reassembler → Result (Option UdpV3Packet) × Reassembler → Type 0
Answers r (answer, r') = (p : UdpV3Packet) → answer ≡ ok (some p) → Answered r r' p

can_start→new :
    (r : Reassembler) (i : Identity)
    → can_start_identity r i ≡ ok true
    → is_identity i r.last_completed_identity ≡ false
unfolding can_start_identity
can_start→new r i h = elim (Bool-cases (is_identity i r.last_completed_identity)) [
  | inl e ↦ let bad : ok false ≡ ok true = rw e at h in cc
  | inr e ↦ e
]

finish-identity :
    (r : Reassembler) (i : Identity) (p : UdpV3Packet) → finish r i ≡ ok p → frame_identity p ≡ i
unfolding finish
finish-identity r i p h =
    let (outputs, _, h1) = >>=-eq-ok (collect r.expected_outputs r.buffers) _ h in
    let (_, _, h2) = >>=-eq-ok (Packet.post_init (frame_of r i outputs)) _ h1 in
    rw (← ok-injective h2)

abbrev frame_answer : Option UdpV3Packet → Result (Option UdpV3Packet)
frame_answer o = ok o

same_answer : (p q : UdpV3Packet) → frame_answer (some p) ≡ frame_answer (some q) → p ≡ q
same_answer p q h = cc

marked :
    (r w : Reassembler) (i : Identity) (p : UdpV3Packet)
    → frame_identity p ≡ i
    → is_identity i r.last_completed_identity ≡ false
    → Answered r (mark_complete w p i) p
unfolding mark_complete
marked r w i p e new = rw (← e) (record {
  new_identity = rw e new;
  remembered = refl;
  last_sequence = refl;
  idle = (refl, refl);
})

accept_frame-Answers :
    (r : Reassembler) (p : UdpV3Packet) (v : Result Bool)
    → can_start_identity r (frame_identity p) ≡ v
    → Answers r (accept_frame r p v)
unfolding accept_frame
accept_frame-Answers r p (err e) s q h = cc
accept_frame-Answers r p (ok false) s q h = cc
accept_frame-Answers r p (ok true) s q h =
    rw (← same_answer p q h)
      (marked r r (frame_identity p) p refl (can_start→new r (frame_identity p) s))

complete-Answers :
    (r w : Reassembler) (i : Identity) (v : Result UdpV3Packet)
    → finish w i ≡ v
    → is_identity i r.last_completed_identity ≡ false
    → Answers r (complete w i v)
complete-Answers r w i (err e) f new q h = cc
complete-Answers r w i (ok p) f new q h =
    rw (← same_answer p q h) (marked r w i p (finish-identity w i p f) new)

store-Answers :
    (r w : Reassembler) (i : Identity) (chunks : List UdpV3Chunk) (v : Result Bool)
    → is_identity i r.last_completed_identity ≡ false
    → Answers r (store w i chunks v)
unfolding store
store-Answers r w i chunks (err e) new q h = cc
store-Answers r w i chunks (ok false) new q h = cc
store-Answers r w i chunks (ok true) new q h =
    elim (Bool-cases (all_full (write_chunks chunks w.buffers))) [
      | inl e ↦
          let x : Reassembler = record w { buffers = write_chunks chunks w.buffers } in
          rw e (complete-Answers r x i (finish x i) refl new q (rw e at h))
      | inr e ↦ let bad : frame_answer none ≡ frame_answer (some q) = rw e at h in cc
    ]

accept_chunks-Answers :
    (r : Reassembler) (p : UdpV3ChunkPacket) (v : Result Bool)
    → can_start_identity r (chunk_identity p) ≡ v
    → Answers r (accept_chunks r p v)
unfolding accept_chunks
accept_chunks-Answers r p (err e) s q h = cc
accept_chunks-Answers r p (ok false) s q h = cc
accept_chunks-Answers r p (ok true) s q h =
    let o = opened r (chunk_identity p) in
    store-Answers r o (chunk_identity p) p.chunks
      (check_chunks o.expected_outputs o.buffers p.chunks) (can_start→new r (chunk_identity p) s) q
      h

accept-Answers : (r : Reassembler) (bytes : List ℕ) → Answers r (accept r bytes)
accept-Answers r bytes q h = elim (Option-cases (Packet.decode bytes (frame_wanted r))) [
  | inr (p, e) ↦
      let same = accept-whole r bytes p e in
      rw same
        (accept_frame-Answers r p (can_start_identity r (frame_identity p)) refl q (rw same at h))
  | inl e ↦ elim (Option-cases (Chunk.decode bytes (some r.expected_node_id) max_udp_payload)) [
    | inr (p, f) ↦
        let same = accept-chunk r bytes e p f in
        rw same (
          accept_chunks-Answers r p (can_start_identity r (chunk_identity p)) refl q (rw same at h))
    | inl f ↦
        let none_found : frame_answer none ≡ frame_answer (some q) =
          rw (accept-noise r bytes e f) at h in
        cc
  ]
]

-- Where a receiver answers two datagrams, the one right after the other, with a frame each, the
-- second frame differs from the first in its sequence, its times or its flags. After the first one
-- the receiver has no open frame and no partial buffers.
pub answered_once :
    (r : Reassembler) (first second : List ℕ) (p q : UdpV3Packet)
    → (accept r first).0 ≡ ok (some p)
    → (accept (accept r first).1 second).0 ≡ ok (some q)
    → (identity_eq (frame_identity q) (frame_identity p) ≡ false)
      × ((accept r first).1.active_identity ≡ none)
      × ((accept r first).1.buffers ≡ [])
answered_once r first second p q h k =
    let a = accept-Answers r first p h in
    let b = accept-Answers (accept r first).1 second q k in
    (rw a.remembered at b.new_identity, a.idle.0, a.idle.1)
