-- ===== src/UdpOutputV3/Flush.antt =====
-- udp_output.py: `flush_latest` of UdpOutputV3, which prepares a frame, encodes all its nodes, and only
-- then sends, a new session's first frame several times.
use light_belt.Prelude.{
  ℕ, zero, suc, ◌+◌, Bool, true, false, Option, none, some, List, [], ◌∷◌, ◌++◌, ◌&&◌, ◌||◌, not,
  is_empty, is_some, ◌==◌, if◌then◌else◌, map, Error, Result, ok, err, value_error, runtime_error,
}
use light_belt.Prelude
use light_belt.Prelude.Actions.{
  Action, pure, raise, gets, modify, of_result, ◌>>=◌, ◌>>◌, attempt, when,
}
use light_belt.Wire.Pixels.{max_uint64}
use light_belt.Outputs.{pop_latest}
use light_belt.Frames.{Address, DigitalOutputFrame, DigitalNodeFrame, PhysicalFrame}
use light_belt.UdpV3.Packet
use light_belt.UdpV3.Packet.{UdpV3Output, UdpV3Packet}
use light_belt.UdpV3.Datagrams.{encode_udp_v3_frame_datagrams}
use light_belt.Transport.{
  Mode, is_production, Reason, preparation_error, encoding_error, send_error, spacing_error, World,
  Sender, Datagram, set_error, set_healthy, drop_packet, drop_frame, count_packet, count_frame,
  send_datagram, enqueue,
}
use light_belt.Transport
use light_belt.UdpOutputV3.{
  UdpOutputV3, on_base, change_base, require_int_range, scheduled_apply_at,
}

-- What the first `try` makes of a frame.
pub record Prepared : Type 0 where
  pub flags : ℕ
  pub starts_new_session : Bool
  pub apply_at_us : Option ℕ

-- The flags are apart, so `|` is the sum.
abbrev pub flags_of : Bool → Bool → Option ℕ → ℕ
flags_of safe_state starts apply_at =
    (if safe_state then 1 else 0) + (if starts then 2 else 0) + (if is_some apply_at then 4 else 0)

-- `if metadata_apply_at_us is not None: self._require_int_range(...)`
abbrev pub check_metadata : Option ℕ → Result (Unit {0})
check_metadata none = ok tt
check_metadata (some t) = require_int_range t 1 max_uint64

abbrev pub output_of : DigitalOutputFrame → UdpV3Output
output_of o = record { output_id = o.output_id; gpio = o.gpio; pixels = o.pixels }

abbrev pub packet_of : PhysicalFrame → Prepared → DigitalNodeFrame → UdpV3Packet
packet_of frame p d = record {
  digital_node_id = d.node_id;
  sequence = frame.sequence;
  media_timestamp_us = frame.timestamp_us;
  outputs = map output_of d.outputs;
  apply_at_us = p.apply_at_us;
  flags = p.flags;
  message_type = 1;
}

-- The constructor calls of the outputs, in order.
unfoldable pub construct_outputs : List UdpV3Output → Result (Unit {0})
construct_outputs [] = ok tt
construct_outputs (o ∷ os) = Prelude.◌>>◌ (Packet.output_post_init o) (construct_outputs os)

unfoldable pub encode_node : PhysicalFrame → Prepared → DigitalNodeFrame → Result (List (List ℕ))
encode_node frame p d = Prelude.◌>>◌ (Prelude.require (not (is_empty d.outputs)) value_error) (
    Prelude.◌>>◌ (construct_outputs (map output_of d.outputs)) (
      Prelude.◌>>◌ (Packet.post_init (packet_of frame p d))
        (encode_udp_v3_frame_datagrams (packet_of frame p d) d.max_udp_payload)))

abbrev pub addressed : Address → List (List ℕ) → List Datagram
addressed address [] = []
addressed address (packet ∷ packets) = (packet, address) ∷ addressed address packets

-- The loop that encodes; it stops at the first node that raises.
unfoldable pub encode_nodes :
    PhysicalFrame → Prepared → List DigitalNodeFrame → Result (List Datagram)
encode_nodes frame p [] = ok []
encode_nodes frame p (d ∷ ds) =
    let rest = encode_nodes frame p ds in
    if d.enabled
    then Prelude.◌>>=◌ (encode_node frame p d)
        (λ packets. Prelude.◌>>=◌ rest (λ datagrams. ok (addressed d.address packets ++ datagrams)))
    else rest

-- The locals of the sending loop: `frame_ok` and `last_exception`.
abbrev pub Locals : Type 0
Locals = Bool × Option Error

abbrev pub later_error : Option Error → Option Error → Option Error
later_error old none = old
later_error old (some e) = some e

abbrev pub both : Locals → Locals → Locals
both (fine, old) (fine_too, new) = (fine && fine_too, later_error old new)

abbrev pub prepared : PhysicalFrame → Bool → Option ℕ → Prepared
prepared frame needs_key_frame t =
    let starts : Bool = needs_key_frame && frame.sequence == 1 in
    record {
      flags = flags_of frame.safe_state starts t;
      starts_new_session = starts;
      apply_at_us = t;
    }

module _ {W : Type 0} (w : World W) where
  -- The apply time of a frame, which the metadata must not set for a scheduled output.
  unfoldable pub apply_time : Option ℕ → Action (UdpOutputV3 W) (Option ℕ)
  apply_time metadata s =
      (if s.scheduled_apply
          then of_result (Prelude.require (not (is_some metadata)) value_error)
            >> (scheduled_apply_at w >>= (λ t. pure (some t)))
          else pure metadata)
        s

  -- The body of the first `try`.
  unfoldable pub prepare : PhysicalFrame → Action (UdpOutputV3 W) Prepared
  prepare frame s =
      (of_result (check_metadata frame.apply_at_us)
          >> (apply_time frame.apply_at_us >>= (λ t. pure (prepared frame s.needs_key_frame t))))
        s

  unfoldable pub prepare_failed : {A : Type 0} → Error → Action (UdpOutputV3 W) A
  prepare_failed e = do
    change_base (set_error (preparation_error e))
    s ← gets (λ (s : UdpOutputV3 W). s)
    when (is_production s.base.mode) (change_base (λ b. drop_frame (set_healthy false b)))
    raise e

  -- After a node that cannot be encoded nothing is sent: production raises, the others return.
  unfoldable pub encode_failed : Error → Action (Sender W) (Unit {0})
  encode_failed e = do
    modify (λ s. set_error (encoding_error e) (drop_packet s))
    s ← gets (λ (s : Sender W). s)
    if is_production s.mode
        then (do modify (λ s. drop_frame (set_healthy false s)); raise e)
        else modify drop_frame

  -- The handler of a datagram's exception.
  unfoldable pub send_failed : Bool → Error → Action (Sender W) Locals
  send_failed safe_state e = do
    modify (λ s. set_error (send_error e) (drop_packet s))
    s ← gets (λ (s : Sender W). s)
    if is_production s.mode
        then (do
          modify (set_healthy false)
          if safe_state then pure (false, some e) else (do modify drop_frame; raise e))
        else pure (false, none)

  -- One datagram: what it changes of the locals. Without an exception, nothing.
  unfoldable pub send_one : Bool → Datagram → Action (Sender W) Locals
  send_one safe_state d =
      attempt (do send_datagram w d; modify count_packet; pure (true, none))
        (send_failed safe_state)

  unfoldable pub send_round : Bool → List Datagram → Locals → Action (Sender W) Locals
  send_round safe_state [] l = pure l
  send_round safe_state (d ∷ ds) l = do
    m ← send_one safe_state d
    send_round safe_state ds (both l m)

  -- The handler of the pause between two rounds; `break` where it does not raise.
  unfoldable pub spacing_failed : Error → Action (Sender W) Locals
  spacing_failed e = do
    modify (set_error (spacing_error e))
    s ← gets (λ (s : Sender W). s)
    if is_production s.mode
        then (do modify (λ s. drop_frame (set_healthy false s)); raise e)
        else pure (false, some e)

  -- The pause: the locals after it, and whether the loop goes on.
  unfoldable pub pause : ℕ → Locals → Action (Sender W) (Locals × Bool)
  pause spacing l =
      if spacing == 0
      then pure (l, true)
      else attempt (do Transport.of_world (w.sleep_us spacing); pure (l, true))
          (λ e. do m ← spacing_failed e; pure (both l m, false))

  -- `break` or the rest of the rounds.
  abbrev pub go_on : (Locals → Action (Sender W) Locals) → Locals × Bool → Action (Sender W) Locals
  go_on rest (l, b) = if b then rest l else pure l

  -- After a round: none is left, or a pause and the rest.
  abbrev pub next_rounds :
      ℕ → ℕ → (Locals → Action (Sender W) Locals) → Locals → Action (Sender W) Locals
  next_rounds zero spacing rest l = pure l
  next_rounds (suc n) spacing rest l = pause spacing l >>= go_on rest

  -- The rounds that are left, with a pause between two.
  unfoldable pub send_rounds : ℕ → ℕ → Bool → List Datagram → Locals → Action (Sender W) Locals
  send_rounds zero spacing safe_state ds l = pure l
  send_rounds (suc n) spacing safe_state ds l =
      send_round safe_state ds l >>= next_rounds n spacing (send_rounds n spacing safe_state ds)

  -- `send_rounds = ... if self._scheduled_apply and starts_new_session else 1`
  abbrev pub round_count : UdpOutputV3 W → Prepared → ℕ
  round_count s p = if s.scheduled_apply && p.starts_new_session then s.session_start_repeats else 1

  -- The end of the flush, from the locals of the loop.
  unfoldable pub finish : Prepared → Locals → Action (UdpOutputV3 W) (Unit {0})
  finish p (fine, last) =
      if fine
      then (do
        change_base count_frame
        when p.starts_new_session (modify (λ s. record s { needs_key_frame = false })))
      else (do
        change_base drop_frame
        s ← gets (λ (s : UdpOutputV3 W). s)
        when (is_production s.base.mode && is_some last) (raise runtime_error))

  -- What follows the encoding of the nodes.
  unfoldable pub send_encoded :
      PhysicalFrame → Prepared → Result (List Datagram) → Action (UdpOutputV3 W) (Unit {0})
  send_encoded frame p (err e) = on_base (encode_failed e)
  send_encoded frame p (ok datagrams) = do
    s ← gets (λ (s : UdpOutputV3 W). s)
    l ← on_base (
        send_rounds (round_count s p) s.session_start_spacing_us frame.safe_state datagrams
          (true, none))
    finish p l

  unfoldable pub send_popped : Option PhysicalFrame → Action (UdpOutputV3 W) (Unit {0})
  send_popped none = pure tt
  send_popped (some frame) = do
    p ← attempt (prepare frame) prepare_failed
    send_encoded frame p (encode_nodes frame p frame.digital_frames)

  unfoldable pub flush_latest : Action (UdpOutputV3 W) (Unit {0})
  flush_latest s =
      let (queue, frame) = pop_latest s.base.queue in
      send_popped frame (record s { base = record s.base { queue = queue } })

  -- `send_frame` is that of UdpOutputV2, over this flush.
  unfoldable pub send_frame : PhysicalFrame → Action (UdpOutputV3 W) (Unit {0})
  send_frame frame = do flush ← on_base (enqueue frame); when flush flush_latest
