-- ===== src/Transport/Rounds.antt =====
-- The datagram outputs count every frame that they take from the queue once, as sent or as dropped.
use light_belt.Prelude.{
  ℕ, ◌+◌, ◌≡◌, Bool, true, false, none, List, [], ◌∷◌, arith, Error, Result, ok, err, ◌&&◌,
}
use light_belt.Prelude.Actions.{Action, pure, ◌>>=◌, resume}
use light_belt.Outputs.{OutputHealth}
use light_belt.Transport.{is_production, Reason, Sender, node_failed, each, finish_frame}

abbrev pub frames_counted : OutputHealth Reason → ℕ
frames_counted h = h.logical_frames_sent + h.frames_dropped

module _ {W : Type 0} where
  -- After a part of the loop over the nodes of a frame, by how it ended. `safe` says that the frame
  -- is the safe state.
  abbrev pub After : Bool → Sender W → Result Bool × Sender W → Type 0
  After safe s (ok sent, t) =
      (t.mode ≡ s.mode) × (t.queue ≡ s.queue) × (frames_counted t.health ≡ frames_counted s.health)
  After safe s (err e, t) =
      (is_production t.mode ≡ true)
      × (t.queue ≡ s.queue)
      × (frames_counted t.health ≡ frames_counted s.health + 1)
      × (t.health.healthy ≡ false)
      × (safe ≡ false)

  pub node_failed-After :
      (safe : Bool) (e : Error) (s : Sender W) → After safe s (node_failed safe e s)
  unfolding node_failed
  node_failed-After safe e s = ground arith

  -- What differs only in the counted packets and the world is as good a start.
  pub from_earlier :
      (safe : Bool) (s t : Sender W)
      → t.mode ≡ s.mode
      → t.queue ≡ s.queue
      → frames_counted t.health ≡ frames_counted s.health
      → (r : Result Bool × Sender W) → After safe t r
      → After safe s r
  from_earlier safe s t m q f (ok b, u) h = ground arith
  from_earlier safe s t m q f (err e, u) h = ground arith

  -- One round, and then the rest of the loop.
  one_more :
      (safe : Bool) (s : Sender W) (k : Action (Sender W) Bool)
      → ((t : Sender W) → After safe t (k t))
      → (r : Result Bool × Sender W) → After safe s r
      → After safe s (resume (λ sent. k >>= (λ rest. pure (sent && rest))) r)
  one_more safe s k h (err e, t) a = a
  one_more safe s k h (ok sent, t) a = both (k t) (h t)
    where
      both :
          (r : Result Bool × Sender W)
          → After safe t r
          → After safe s (resume (λ rest. pure (sent && rest)) r)
      both (ok rest, u) b = ground (arith, a, b)
      both (err e, u) b = ground (arith, a, b)

  pub each-After :
      {X : Type 0} (safe : Bool) (body : X → Action (Sender W) Bool)
      → ((x : X) (s : Sender W) → After safe s (body x s))
      → (xs : List X) (s : Sender W) → After safe s (each body xs s)
  unfolding each
  each-After safe body h [] s = ground arith
  each-After safe body h (x ∷ xs) s =
      one_more safe s (each body xs) (each-After safe body h xs) (body x s) (h x s)

  -- The end of a flush that began in `s`, with the queue emptied.
  pub record Flushed (safe : Bool) (s : Sender W) (r : Result (Unit {0}) × Sender W) : Type 0 where
    pub counted : frames_counted r.1.health ≡ frames_counted s.health + 1
    pub queue : r.1.queue ≡ none
    pub raised :
        (e : Error)
        → r.0 ≡ err e
        → (safe ≡ false) × (is_production r.1.mode ≡ true) × (r.1.health.healthy ≡ false)

  pub flushed :
      (safe : Bool) (s : Sender W) (r : Result Bool × Sender W)
      → After safe s r
      → s.queue ≡ none
      → Flushed safe s (resume finish_frame r)
  flushed safe s (ok true, t) a q = record {
    counted = ground (arith, a);
    queue = ground (arith, a);
    raised = λ e h. cc;
  }
  flushed safe s (ok false, t) a q = record {
    counted = ground (arith, a);
    queue = ground (arith, a);
    raised = λ e h. cc;
  }
  flushed safe s (err x, t) a q = record {
    counted = ground (arith, a);
    queue = ground (arith, a);
    raised = λ e h. ground (arith, a);
  }
