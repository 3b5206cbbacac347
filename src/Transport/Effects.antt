-- ===== src/Transport/Effects.antt =====
-- What the shared parts of the datagram outputs leave alone.
use light_belt.Prelude.{◌≡◌, refl, true, false, if◌then◌else◌, Result, runtime_error}
use light_belt.Prelude.Actions.{raise, returned}
use light_belt.Transport.{
  of_world, Mode, production, memory, fake, World, Sender, Datagram, deliver, send_datagram,
}

-- Two states that differ in the world and in the list of sent datagrams at most.
pub record Quiet {W : Type 0} (s t : Sender W) : Type 0 where
  pub mode : t.mode ≡ s.mode
  pub health : t.health ≡ s.health
  pub queue : t.queue ≡ s.queue

module _ {W : Type 0} (w : World W) where
  sent_on_socket :
      (d : Datagram) (s : Sender W) (r : Result (Unit {0}) × W)
      → Quiet s (returned (λ v. record s { world = v }) r).1
  sent_on_socket d s (r, v) = record { mode = refl; health = refl; queue = refl }

  deliver-Quiet : (d : Datagram) (m : Mode) (s : Sender W) → Quiet s (deliver w d m s).1
  deliver-Quiet d fake s = record { mode = refl; health = refl; queue = refl }
  deliver-Quiet d memory s = record { mode = refl; health = refl; queue = refl }
  deliver-Quiet d production s =
      elim s.has_socket
        as (λ b. Quiet s ((if b then of_world (w.sendto d) else raise runtime_error) s).1) [
          | true ↦ sent_on_socket d s (w.sendto d s.world)
          | false ↦ record { mode = refl; health = refl; queue = refl }
        ]

  pub send_datagram-Quiet : (d : Datagram) (s : Sender W) → Quiet s (send_datagram w d s).1
  unfolding send_datagram
  send_datagram-Quiet d s = deliver-Quiet d s.mode s
