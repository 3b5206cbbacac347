-- ===== src/Outputs/Queue.antt =====
-- outputs/__init__.py: what `LatestFrameQueue` hands out, overwrites and keeps.
use light_belt.Prelude.{
  ℕ, ◌+◌, ◌≡◌, refl, Bool, Option, none, some, List, [], ◌∷◌, ◌++◌, length, length-append, ◌∙◌, sym,
  ap, append-nil, append_assoc, if◌then◌else◌, arith,
}
use light_belt.Outputs.{push, pop_latest, queue_length}

-- A producer's and a consumer's calls, in the order in which the lock lets them pass.
pub data Call (Frame : Type 0) : Type 0 where
  put : Frame → Call Frame
  take_out : Call Frame

-- The queue after the calls, the frames that were put and the overwritten ones, counted, and the
-- frames that were taken out, in order.
pub record Run (Frame : Type 0) : Type 0 where
  pub queue : Option Frame
  pub pushed : ℕ
  pub dropped : ℕ
  pub popped : List Frame

abbrev one_if : Bool → ℕ
one_if b = if b then 1 else 0

module _ {Frame : Type 0} where
  abbrev taken : Option Frame → List Frame
  taken none = []
  taken (some frame) = frame ∷ []

  abbrev step : Run Frame → Call Frame → Run Frame
  step r (put frame) =
      let (queue, was_dropped) = push r.queue frame in
      record r { queue = queue; pushed = r.pushed + 1; dropped = r.dropped + one_if was_dropped }
  step r take_out =
      let (queue, found) = pop_latest r.queue in
      record r { queue = queue; popped = r.popped ++ taken found }

  abbrev pub run : Run Frame → List (Call Frame) → Run Frame
  run r [] = r
  run r (call ∷ calls) = run (step r call) calls

  abbrev Balanced : Run Frame → Type 0
  Balanced r = r.pushed ≡ r.dropped + length r.popped + queue_length r.queue

  length-taken : (queue : Option Frame) → length (taken queue) ≡ queue_length queue
  length-taken none = refl
  length-taken (some frame) = refl

  step-Balanced : (r : Run Frame) (call : Call Frame) → Balanced r → Balanced (step r call)
  step-Balanced r (put frame) h = omega arith
  step-Balanced r take_out h =
      omega (arith, length-append r.popped (taken r.queue), length-taken r.queue)

  run-Balanced : (r : Run Frame) (calls : List (Call Frame)) → Balanced r → Balanced (run r calls)
  run-Balanced r [] h = h
  run-Balanced r (call ∷ calls) h = run-Balanced (step r call) calls (step-Balanced r call h)

-- What becomes of the frames, read off the calls alone: a frame that is put is taken out if the next
-- call takes one, is overwritten if the next call puts another, and stays if no call follows.
module _ {Frame : Type 0} where
  abbrev pub delivered : List (Call Frame) → List Frame
  delivered [] = []
  delivered (take_out ∷ calls) = delivered calls
  delivered (put frame ∷ []) = []
  delivered (put frame ∷ take_out ∷ calls) = frame ∷ delivered calls
  delivered (put frame ∷ put newer ∷ calls) = delivered (put newer ∷ calls)

  abbrev pub overwritten : List (Call Frame) → List Frame
  overwritten [] = []
  overwritten (take_out ∷ calls) = overwritten calls
  overwritten (put frame ∷ []) = []
  overwritten (put frame ∷ take_out ∷ calls) = overwritten calls
  overwritten (put frame ∷ put newer ∷ calls) = frame ∷ overwritten (put newer ∷ calls)

  abbrev pub staying : List (Call Frame) → Option Frame
  staying [] = none
  staying (take_out ∷ calls) = staying calls
  staying (put frame ∷ []) = some frame
  staying (put frame ∷ take_out ∷ calls) = staying calls
  staying (put frame ∷ put newer ∷ calls) = staying (put newer ∷ calls)

  -- The calls and, before them, the one that put the frame in the queue.
  abbrev with_queue : Option Frame → List (Call Frame) → List (Call Frame)
  with_queue none calls = calls
  with_queue (some frame) calls = put frame ∷ calls

  -- A run over the calls that does with the frames what is read off them.
  record Follows (calls : List (Call Frame)) (r t : Run Frame) : Type 0 where
    pub popped : t.popped ≡ r.popped ++ delivered calls
    pub dropped : t.dropped ≡ r.dropped + length (overwritten calls)
    pub queue : t.queue ≡ staying calls

  abbrev at : Option Frame → ℕ → ℕ → List Frame → Run Frame
  at queue pushed dropped popped = record {
    queue = queue;
    pushed = pushed;
    dropped = dropped;
    popped = popped;
  }

  run-Follows :
      (calls : List (Call Frame)) (q : Option Frame) (pushed dropped : ℕ) (popped : List Frame)
      → Follows
          (with_queue q calls)
          (at q pushed dropped popped)
          (run (at q pushed dropped popped) calls)
  run-Follows [] none pushed dropped popped = record {
    popped = sym (append-nil popped);
    dropped = omega arith;
    queue = refl;
  }
  run-Follows [] (some f) pushed dropped popped = record {
    popped = sym (append-nil popped);
    dropped = omega arith;
    queue = refl;
  }
  run-Follows (put g ∷ calls) none pushed dropped popped =
      let next = run-Follows calls (some g) (pushed + 1) (dropped + 0) popped in
      record { popped = next.popped; dropped = omega (arith, next.dropped); queue = next.queue }
  run-Follows (put g ∷ calls) (some f) pushed dropped popped =
      let next = run-Follows calls (some g) (pushed + 1) (dropped + 1) popped in
      record { popped = next.popped; dropped = omega (arith, next.dropped); queue = next.queue }
  run-Follows (take_out ∷ calls) none pushed dropped popped =
      let next = run-Follows calls none pushed dropped (popped ++ []) in
      record {
        popped = next.popped ∙ ap (λ (xs : List Frame). xs ++ delivered calls) (append-nil popped);
        dropped = next.dropped;
        queue = next.queue;
      }
  run-Follows (take_out ∷ calls) (some f) pushed dropped popped =
      let next = run-Follows calls none pushed dropped (popped ++ f ∷ []) in
      record {
        popped = next.popped ∙ append_assoc popped (f ∷ []) (delivered calls);
        dropped = next.dropped;
        queue = next.queue;
      }

abbrev pub start : {Frame : Type 0} → Run Frame
start = record { queue = none; pushed = 0; dropped = 0; popped = [] }

-- From an empty queue on, in whatever order the calls come: the frames taken out are those that were
-- put by the last call before a call that takes one, in their order; the frames counted as dropped
-- are as many as those that a newer one took the place of; and the queue holds the frame of the last
-- call, if that put one. The frames that were put are these three together in number.
pub queue_keeps_latest :
    {Frame : Type 0} (calls : List (Call Frame))
    → ((run start calls).popped ≡ delivered calls)
      × ((run start calls).dropped ≡ length (overwritten calls))
      × ((run start calls).queue ≡ staying calls)
      × ((run start calls).pushed
          ≡ (run start calls).dropped
            + length (run start calls).popped
            + queue_length (run start calls).queue)
queue_keeps_latest {Frame} calls =
    let f = run-Follows {Frame = Frame} calls none 0 0 [] in
    (f.popped, omega (arith, f.dropped), f.queue, run-Balanced start calls refl)
