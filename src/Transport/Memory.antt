-- ===== src/Transport/Memory.antt =====
-- What the datagram outputs hand to the network in MEMORY mode.
use light_belt.Prelude.{
  ◌+◌, ◌≡◌, ◌∙◌, sym, ap, Bool, List, [], ◌∷◌, ◌++◌, append_assoc, append-nil, arith, Error, Result,
  ok, err, length, length-append, ◌&&◌,
}
use light_belt.Prelude.Actions.{Action, pure, ◌>>=◌, resume}
use light_belt.Transport.{
  World, count_packet, deliver, send_datagram, node_failed, Mode, memory, Sender, Datagram, each,
  finish_frame,
}

-- The datagrams that the rounds of a loop send.
abbrev pub all_of : {X : Type 0} → (X → List Datagram) → List X → List Datagram
all_of new [] = []
all_of new (x ∷ xs) = new x ++ all_of new xs

module _ {W : Type 0} where
  -- A run in MEMORY mode that sends these datagrams.
  abbrev pub Sends : List Datagram → Sender W → Result Bool × Sender W → Type 0
  Sends new s (ok sent, t) =
      (t.mode ≡ memory)
      × (t.sent_datagrams ≡ s.sent_datagrams ++ new)
      × (t.health.packets_sent ≡ s.health.packets_sent + length new)
  Sends new s (err e, t) = ⊥

  one_more :
      (here later : List Datagram) (s : Sender W) (k : Action (Sender W) Bool)
      → ((t : Sender W) → t.mode ≡ memory → Sends later t (k t))
      → (r : Result Bool × Sender W) → Sends here s r
      → Sends (here ++ later) s (resume (λ sent. k >>= (λ rest. pure (sent && rest))) r)
  one_more here later s k h (ok sent, t) a = both (k t) (h t a.0)
    where
      both :
          (r : Result Bool × Sender W)
          → Sends later t r
          → Sends (here ++ later) s (resume (λ rest. pure (sent && rest)) r)
      both (ok rest, u) b = (
        b.0,
        b.1 ∙ ap (λ (x : List Datagram). x ++ later) a.1 ∙ append_assoc s.sent_datagrams here later,
        omega (arith, a, b, length-append here later),
      )
      both (err e, u) b = elim b [ ]
  one_more here later s k h (err e, t) a = elim a [ ]

  pub each-Sends :
      {X : Type 0} (new : X → List Datagram) (body : X → Action (Sender W) Bool)
      → ((x : X) (s : Sender W) → s.mode ≡ memory → Sends (new x) s (body x s))
      → (xs : List X) (s : Sender W) → s.mode ≡ memory
      → Sends (all_of new xs) s (each body xs s)
  unfolding each
  each-Sends new body h [] s m = (m, sym (append-nil s.sent_datagrams), omega arith)
  each-Sends new body h (x ∷ xs) s m =
      one_more (new x) (all_of new xs) s (each body xs) (each-Sends new body h xs) (body x s)
        (h x s m)

  abbrev pub Delivered : List Datagram → Sender W → Result (Unit {0}) × Sender W → Type 0
  Delivered new s (r, t) =
      (r ≡ ok tt)
      × (t.sent_datagrams ≡ s.sent_datagrams ++ new)
      × (t.health.packets_sent ≡ s.health.packets_sent + length new)

  pub delivered :
      (new : List Datagram) (s : Sender W) (r : Result Bool × Sender W)
      → Sends new s r
      → Delivered new s (resume finish_frame r)
  delivered new s (ok sent, t) a = ground (arith, a)
  delivered new s (err e, t) a = elim a [ ]

  -- The state after a datagram was sent and counted.
  abbrev pub after_one : Datagram → Sender W → Sender W
  after_one d s = count_packet (record s { sent_datagrams = s.sent_datagrams ++ d ∷ [] })

  pub Sends-cons :
      (d : Datagram) (new : List Datagram) (s : Sender W) (r : Result Bool × Sender W)
      → Sends new (after_one d s) r
      → Sends (d ∷ new) s r
  Sends-cons d new s (ok sent, t) h =
      (h.0, h.1 ∙ append_assoc s.sent_datagrams (d ∷ []) new, omega (arith, h))
  Sends-cons d new s (err e, t) h = elim h [ ]

  pub send_datagram_in_memory :
      (w : World W) (d : Datagram) (s : Sender W)
      → s.mode ≡ memory
      → send_datagram w d s ≡ (ok tt, record s { sent_datagrams = s.sent_datagrams ++ d ∷ [] })
  unfolding send_datagram
  send_datagram_in_memory w d s m = ap (λ (mode : Mode). deliver w d mode s) m

  pub failed_in_memory :
      (safe : Bool) (e : Error) (s : Sender W) → s.mode ≡ memory → Sends [] s (node_failed safe e s)
  unfolding node_failed
  failed_in_memory safe e s m = ground (arith, append-nil s.sent_datagrams)
