-- ===== src/Fan.antt =====
-- The loop by which PUB, BUS, STAR and SURVEYOR offer one message to the queue of every peer:
-- protocol/bus/bus.go, lines 82 to 104, and the like loops of the others. The queues share the
-- message, so each one that takes it holds a reference.
pub mod Laws
use mangos_v.Prelude.{ℕ, Bool, true, false, [], ◌∷◌}
use mangos_v.Message.{Message, Counted, dup, release}
use mangos_v.Chan.{Chan, taken, full, panics, offer}
use mangos_v.Prelude.Table.{Table}

-- What the loop leaves: the message with its count, the queues, and whether it panicked.
pub record Fanned : Type 0 where
  pub message : Counted
  pub peers : Table (Chan Message)
  pub panicked : Bool

abbrev keep : ℕ → Chan Message → Fanned → Fanned
keep id q f = record f { peers = (id, q) ∷ f.peers }

-- `passed_over` tells the peers that the loop leaves out.
unfoldable pub fan_out : (ℕ → Bool) → Counted → Table (Chan Message) → Fanned
fan_out passed_over c [] = record { message = c; peers = []; panicked = false }
fan_out passed_over c ((id, q) ∷ rest) = elim (passed_over id) [
  | true ↦ keep id q (fan_out passed_over c rest)
  | false ↦ elim (offer q c.msg) [
    | taken q' ↦ keep id q' (fan_out passed_over (dup c) rest)
    | full ↦ keep id q (fan_out passed_over (release (dup c)) rest)
    | panics ↦ record { message = dup c; peers = (id, q) ∷ rest; panicked = true }
  ]
]

unfoldable pub everybody : ℕ → Bool
everybody id = false
