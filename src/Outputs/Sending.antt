-- ===== src/Outputs/Sending.antt =====
-- outputs/__init__.py: which outputs `send_all` reaches, and when it raises.
use light_belt.Prelude.{
  ◌≡◌, refl, ap, ap₂, Bool, true, false, Option, none, some, List, [], ◌∷◌, ◌++◌, map, not, ◌&&◌,
  inl, inr, Bool-cases, &&-true, if◌then◌else◌,
}
use light_belt.Outputs.{Output, Driver, submitted, failed, settled, prepend, after_send, send_all}

not-true : (b : Bool) → not b ≡ true → b ≡ false
not-true false h = refl
not-true true h = cc

only_healthy :
    (healthy safe : Bool) → (not healthy && not safe) ≡ false → safe ≡ false → healthy ≡ true
only_healthy true safe h e = refl
only_healthy false true h e = cc
only_healthy false false h e = cc

module _ {Device Failure Frame : Type 0} (d : Driver Device Failure Frame) where
  -- What becomes of an output that the loop gets to: an unhealthy one is passed over, unless the
  -- frame is the safe state.
  abbrev pub reached : Bool → Frame → Output Device Failure → Output Device Failure
  reached safe_state frame o =
      if not o.health.healthy && not safe_state
      then submitted o
      else settled (d.send_frame (submitted o) frame)

  -- The loop ended at an output in production that raised: those before it were reached, and those
  -- after it are as they were.
  pub record Stopped (frame : Frame) (os after : List (Output Device Failure)) (e : Failure)
      : Type 0 where
    pub before : List (Output Device Failure)
    pub at_fault : Output Device Failure
    pub rest : List (Output Device Failure)
    pub sent : Output Device Failure
    pub split : os ≡ before ++ at_fault ∷ rest
    pub healthy : at_fault.health.healthy ≡ true
    pub raised : d.send_frame (submitted at_fault) frame ≡ (sent, some e)
    pub production : sent.production ≡ true
    pub left : after ≡ map (reached false frame) before ++ failed sent e ∷ rest

  abbrev pub Outcome :
      Bool
      → Frame
      → List (Output Device Failure)
      → List (Output Device Failure) × Option Failure
      → Type 0
  Outcome safe_state frame os (after, none) = after ≡ map (reached safe_state frame) os
  Outcome safe_state frame os (after, some e) = (safe_state ≡ false) × Stopped frame os after e

  module _ (safe_state : Bool) (frame : Frame) (o : Output Device Failure)
      (os : List (Output Device Failure)) where
    -- A round that goes on, in front of a run.
    extend :
        (p : Output Device Failure)
        → p ≡ reached safe_state frame o
        → (r : List (Output Device Failure) × Option Failure) → Outcome safe_state frame os r
        → Outcome safe_state frame (o ∷ os) (prepend p r)
    extend p e (after, none) h = ap₂ ◌∷◌ e h
    extend p e (after, some x) (unsafe, s) = (
      unsafe,
      record {
        before = o ∷ s.before;
        at_fault = s.at_fault;
        rest = s.rest;
        sent = s.sent;
        split = ap (◌∷◌ o) s.split;
        healthy = s.healthy;
        raised = s.raised;
        production = s.production;
        left = rw unsafe at (ap₂ ◌∷◌ e s.left);
      },
    )

    -- A round that sends.
    sends :
        (r : Output Device Failure × Option Failure)
        → d.send_frame (submitted o) frame ≡ r
        → settled r ≡ reached safe_state frame o
        → (safe_state ≡ false → o.health.healthy ≡ true)
        → (rest : List (Output Device Failure) × Option Failure) → Outcome safe_state frame os rest
        → Outcome safe_state frame (o ∷ os) (after_send d safe_state r os rest)
    unfolding after_send
    sends (p, none) made same healthy rest h = extend p same rest h
    sends (p, some e) made same healthy rest h =
        elim (Bool-cases (p.production && not safe_state)) [
          | inl stop ↦
              let (produced, unsafe) = &&-true p.production (not safe_state) stop in
              rw stop (
                not-true safe_state unsafe,
                record {
                  before = [];
                  at_fault = o;
                  rest = os;
                  sent = p;
                  split = refl;
                  healthy = healthy (not-true safe_state unsafe);
                  raised = made;
                  production = produced;
                  left = refl;
                },
              )
          | inr go ↦ rw go (extend (failed p e) same rest h)
        ]

  -- `send_all` without an exception has reached every output. An exception is that of an output in
  -- production that was healthy, on a frame that is not the safe state; the outputs before that one
  -- were reached, and those after it are as they were.
  pub send_all-Outcome :
      (safe_state : Bool) (frame : Frame) (os : List (Output Device Failure))
      → Outcome safe_state frame os (send_all d safe_state frame os)
  unfolding send_all
  send_all-Outcome safe_state frame [] = refl
  send_all-Outcome safe_state frame (o ∷ os) =
      let rest = send_all d safe_state frame os in
      let run = send_all-Outcome safe_state frame os in
      elim (Bool-cases (not o.health.healthy && not safe_state)) [
        | inl e ↦ rw e (extend safe_state frame o os (submitted o) (rw e) rest run)
        | inr e ↦ rw e (
            sends safe_state frame o os (d.send_frame (submitted o) frame) refl (rw e)
              (only_healthy o.health.healthy safe_state e) rest run)
      ]
