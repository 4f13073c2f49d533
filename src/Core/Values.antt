-- ===== src/Core/Values.antt =====
-- Options of the socket itself are stored and read back.
use mangos_v.Prelude.{ℕ, ◌≡◌, refl, Bool, false, some, arith}
use mangos_v.Core.{Operations, Socket}
use mangos_v.Options.{OptionName, Value}
use mangos_v.Errors.{bad_option, err, ok}
use mangos_v.Prelude.Int.{pos, ℤ, ltb_ℤ}
use mangos_v.Core.Options.{done}
use mangos_v.Options
use mangos_v.Core.Options as Own

-- The options that the socket takes besides its protocol's, each with a value of its type; the
-- queues' lengths only before the first dial or listen.
pub data Fits : Bool → OptionName → Value → Type 0 where
  recv_deadline_fits :
      {active : Bool} (d : ℤ) → Fits active Options.recv_deadline (Value.duration d)
  send_deadline_fits :
      {active : Bool} (d : ℤ) → Fits active Options.send_deadline (Value.duration d)
  linger_fits : {active : Bool} (d : ℤ) → Fits active Options.linger (Value.duration d)
  reconnect_fits : {active : Bool} (d : ℤ) → Fits active Options.reconnect_time (Value.duration d)
  max_reconnect_fits :
      {active : Bool} (d : ℤ) → Fits active Options.max_reconnect_time (Value.duration d)
  max_recv_size_fits :
      {active : Bool} (n : ℕ) → Fits active Options.max_recv_size (Value.int (pos n))
  write_q_len_fits : (n : ℕ) → Fits false Options.write_q_len (Value.int (pos n))
  read_q_len_fits : (n : ℕ) → Fits false Options.read_q_len (Value.int (pos n))

natural : (n : ℕ) → ltb_ℤ (pos n) (pos 0) ≡ false
natural n = ground arith

-- Where the protocol does not know the option: the socket stores the value without an error and reads
-- it back, and leaves its protocol and its pipes alone.
pub stored_option :
    {S : Type 0} (P : Operations S) (s : Socket S) {active : Bool} {name : OptionName} {v : Value}
    → P.set_option name v s.proto ≡ (s.proto, some bad_option)
    → P.get_option name s.proto ≡ err bad_option
    → s.active ≡ active
    → Fits active name v
    → let (s', r) = Own.set_option P name v s in
      (r ≡ Own.done)
      × (Own.get_option P name s' ≡ ok v)
      × (s'.proto ≡ s.proto)
      × (s'.pipes ≡ s.pipes)
unfolding Own.set_option Own.get_option
stored_option P s unset unknown e (recv_deadline_fits d) =
    rw (unset, unknown) (refl, refl, refl, refl)
stored_option P s unset unknown e (send_deadline_fits d) =
    rw (unset, unknown) (refl, refl, refl, refl)
stored_option P s unset unknown e (linger_fits d) = rw (unset, unknown) (refl, refl, refl, refl)
stored_option P s unset unknown e (reconnect_fits d) = rw (unset, unknown) (refl, refl, refl, refl)
stored_option P s unset unknown e (max_reconnect_fits d) =
    rw (unset, unknown) (refl, refl, refl, refl)
stored_option P s unset unknown e (max_recv_size_fits n) =
    rw unset (rw (natural n) (rw unknown (refl, refl, refl, refl)))
stored_option P s unset unknown e (write_q_len_fits n) =
    rw (unset, e) (rw (natural n) (rw unknown (refl, refl, refl, refl)))
stored_option P s unset unknown e (read_q_len_fits n) =
    rw (unset, e) (rw (natural n) (rw unknown (refl, refl, refl, refl)))
