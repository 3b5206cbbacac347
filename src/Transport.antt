-- ===== src/Transport.antt =====
-- light_engine/outputs/udp_output.py and ddp_output.py: what the datagram outputs share. The operating
-- system is a parameter, a `World`: its sockets, its clock and its sleep, with the exceptions that
-- they raise. The text of an error is a `Reason` with the exception that it quotes.
pub mod Effects
pub mod Rounds
pub mod Memory
use light_belt.Prelude.{
  ℕ, ◌+◌, Bool, true, false, Option, none, some, List, [], ◌∷◌, ◌++◌, not, ◌&&◌, if◌then◌else◌,
  Error, Result, ok, err, runtime_error,
}
use light_belt.Prelude.Actions.{
  Action, pure, raise, gets, modify, ◌>>=◌, ◌>>◌, attempt, when, on_part, returned, handle, resume,
}
use light_belt.Outputs.{OutputHealth, push, pop_latest}
use light_belt.Frames.{Address, PhysicalFrame}

-- OutputMode
pub data Mode : Type 0 where
  production memory fake : Mode

abbrev pub is_production : Mode → Bool
is_production production = true
is_production memory = false
is_production fake = false

pub data Reason : Type 0 where
  not_open : Reason
  unavailable send_error preparation_error encoding_error beacon_error startup_error spacing_error :
      Error → Reason

abbrev pub Datagram : Type 0
Datagram = List ℕ × Address

pub record World (W : Type 0) : Type 0 where
  pub create_socket : Action W (Unit {0})
  pub sendto : Datagram → Action W (Unit {0})
  pub close_socket : Action W (Unit {0})
  pub enable_broadcast : Action W (Unit {0})
  pub monotonic_us : Action W ℕ
  pub sleep_us : ℕ → Action W (Unit {0})

-- The fields of a datagram output. `injected` says that a socket was handed in, `has_socket` that
-- `_socket` is not None.
pub record Sender (W : Type 0) : Type 0 where
  pub world : W
  pub mode : Mode
  pub injected : Bool
  pub has_socket : Bool
  pub owns_socket : Bool
  pub is_open : Bool
  pub auto_flush : Bool
  pub health : OutputHealth Reason
  pub sent_datagrams : List Datagram
  pub queue : Option PhysicalFrame

module _ {W : Type 0} where
  abbrev pub of_world : {A : Type 0} → Action W A → Action (Sender W) A
  of_world = on_part (λ (s : Sender W). s.world) (λ v s. record s { world = v })

  abbrev pub on_health : (OutputHealth Reason → OutputHealth Reason) → Sender W → Sender W
  on_health f s = record s { health = f s.health }

  abbrev pub set_error : Reason → Sender W → Sender W
  set_error reason = on_health (λ h. record h { last_error = some reason })

  abbrev pub set_healthy : Bool → Sender W → Sender W
  set_healthy b = on_health (λ h. record h { healthy = b })

  abbrev pub drop_frame : Sender W → Sender W
  drop_frame = on_health (λ h. record h { frames_dropped = h.frames_dropped + 1 })

  abbrev pub drop_packet : Sender W → Sender W
  drop_packet = on_health (λ h. record h { packets_dropped = h.packets_dropped + 1 })

  abbrev pub count_packet : Sender W → Sender W
  count_packet = on_health (λ h. record h { packets_sent = h.packets_sent + 1 })

  abbrev pub count_frame : Sender W → Sender W
  count_frame = on_health (λ h. record h { logical_frames_sent = h.logical_frames_sent + 1 })

  -- `_send_datagram` by its mode; without a socket the production mode raises.
  abbrev pub deliver : World W → Datagram → Mode → Action (Sender W) (Unit {0})
  deliver w d fake = pure tt
  deliver w d memory = modify (λ s. record s { sent_datagrams = s.sent_datagrams ++ d ∷ [] })
  deliver w d production = do
    has ← gets (λ (s : Sender W). s.has_socket)
    if has then of_world (w.sendto d) else raise runtime_error

  -- The handler of a node's exception, alike in both outputs: `continue` with a frame that is not whole, or the exception.
  unfoldable pub node_failed : Bool → Error → Action (Sender W) Bool
  node_failed safe_state e = do
    modify (λ s. set_error (send_error e) (drop_packet s))
    mode ← gets (λ (s : Sender W). s.mode)
    if is_production mode
        then (do
          modify (set_healthy false)
          if safe_state then pure false else (do modify drop_frame; raise e))
        else pure false

  -- The loop over the nodes of a frame, of which `send_node` is the body; the result is `frame_ok`.
  unfoldable pub each :
      {X : Type 0} → (X → Action (Sender W) Bool) → List X → Action (Sender W) Bool
  each send_node [] = pure true
  each send_node (x ∷ xs) = do sent ← send_node x; rest ← each send_node xs; pure (sent && rest)

  -- `if frame_ok: ... else: ...` after the loop
  abbrev pub finish_frame : Bool → Action (Sender W) (Unit {0})
  finish_frame frame_ok = if frame_ok then modify count_frame else modify drop_frame

  -- `send_frame` up to the flush: whether the output's own `flush_latest` comes next.
  unfoldable pub enqueue : PhysicalFrame → Action (Sender W) Bool
  enqueue frame s =
      if not s.is_open
      then (if is_production s.mode
          then raise runtime_error (set_healthy false (set_error not_open (drop_frame s)))
          else pure false (set_error not_open (drop_frame s)))
      else (let (queue, overwritten) = push s.queue frame in
          let queued : Sender W = record s { queue = queue } in
          let counted : Sender W = if overwritten then drop_frame queued else queued in
          pure s.auto_flush counted)

module _ {W : Type 0} (w : World W) where
  unfoldable pub send_datagram : Datagram → Action (Sender W) (Unit {0})
  send_datagram d = do deliver w d (← gets (λ (s : Sender W). s.mode))

  -- `open` of UdpOutputV2 and DdpOutput. A socket that cannot be made is a RuntimeError.
  unfoldable pub open_socket : Action (Sender W) (Unit {0})
  open_socket = do
    s ← gets (λ (s : Sender W). s)
    when (not s.has_socket && is_production s.mode) (
        attempt
          (do
            of_world w.create_socket
            modify (λ s. record s { has_socket = true; owns_socket = true }))
          (λ e. do
            modify (λ s. set_error (unavailable e) (set_healthy false s))
            raise runtime_error))
    modify (λ s. record s {
      is_open = true;
      health = record s.health { healthy = true; last_error = none };
    })

  -- `close`: the socket of the output's own is closed, whatever that raises. What is left is the
  -- socket that was handed in, if `keep`, or none.
  unfoldable pub close_socket : Bool → Action (Sender W) (Unit {0})
  close_socket keep = do
    s ← gets (λ (s : Sender W). s)
    when (s.owns_socket && s.has_socket) (attempt (of_world w.close_socket) (λ e. pure tt))
    modify (λ s. record s { has_socket = keep && s.injected; owns_socket = false; is_open = false })
