-- ===== src/Core/Options.antt =====
-- `SetOption` and `GetOption` of the socket. The protocol comes first; an option that it does not
-- know, or that it took, goes on to the socket's own.
use mangos_v.Prelude.{Bool, true, false, Option, none, some, if◌then◌else◌}
use mangos_v.Options.{duration, int, OptionName, Value, as_bool, as_duration, as_int}
use mangos_v.Errors.{Error, Result, bad_option, bad_value, err, ok}
use mangos_v.Core.{Operations, Socket}
use mangos_v.Prelude.Int.{ltb_ℤ, pos, pos_part, ℤ}
use mangos_v.Chan.{make}

-- A type assertion `value.(T)` with one result panics on another type.
pub data Outcome : Type 0 where
  done panicked_option : Outcome
  refused : Error → Outcome

module _ {S : Type 0} (P : Operations S) where
  unfoldable pub set_duration : Option ℤ → Socket S → (ℤ → Socket S) → Socket S × Outcome
  set_duration none s store = (s, panicked_option)
  set_duration (some d) s store = (store d, done)

  unfoldable pub set_length : Option ℤ → Socket S → (ℤ → Socket S) → Socket S × Outcome
  set_length none s store = (s, panicked_option)
  set_length (some n) s store = if ltb_ℤ n (pos 0) then (s, refused bad_value) else (store n, done)

  unfoldable pub set_max_recv_size : Option ℤ → Socket S → Socket S × Outcome
  set_max_recv_size none s = (s, refused bad_value)
  set_max_recv_size (some n) s =
      if ltb_ℤ n (pos 0) then (s, refused bad_value) else (record s { max_rx_size = n }, done)

  unfoldable pub set_best_effort : Option Bool → Socket S → Socket S × Outcome
  set_best_effort none s = (s, panicked_option)
  set_best_effort (some b) s = (record s { best_effort = b }, done)

  -- The `switch` of `SetOption`; a queue of a new length takes the old one's place.
  unfoldable pub own_option : Bool → OptionName → Value → Socket S → Socket S × Outcome
  unfolding set_duration set_length set_max_recv_size set_best_effort
  own_option matched OptionName.recv_deadline v s =
      set_duration (as_duration v) s (λ d. record s { rdeadline = d })
  own_option matched OptionName.send_deadline v s =
      set_duration (as_duration v) s (λ d. record s { wdeadline = d })
  own_option matched OptionName.linger v s =
      set_duration (as_duration v) s (λ d. record s { linger = d })
  own_option matched OptionName.write_q_len v s =
      if s.active
      then (s, refused bad_option)
      else set_length (as_int v) s (λ n. record s { uwq_len = n; uwq = make (pos_part n) })
  own_option matched OptionName.read_q_len v s =
      if s.active
      then (s, refused bad_option)
      else set_length (as_int v) s (λ n. record s { urq_len = n; urq = make (pos_part n) })
  own_option matched OptionName.max_recv_size v s = set_max_recv_size (as_int v) s
  own_option matched OptionName.reconnect_time v s =
      set_duration (as_duration v) s (λ d. record s { reconntime = d })
  own_option matched OptionName.max_reconnect_time v s =
      set_duration (as_duration v) s (λ d. record s { reconnmax = d })
  own_option matched OptionName.best_effort v s = set_best_effort (as_bool v) s
  own_option matched _ v s = (s, if matched then done else refused bad_option)

  unfoldable pub after_protocol : Option Error → OptionName → Value → Socket S → Socket S × Outcome
  unfolding own_option
  after_protocol none name v s = own_option true name v s
  after_protocol (some bad_option) name v s = own_option false name v s
  after_protocol (some e) name v s = (s, refused e)

  unfoldable pub set_option : OptionName → Value → Socket S → Socket S × Outcome
  unfolding after_protocol
  set_option name v s =
      let (p, e) = P.set_option name v s.proto in after_protocol e name v (record s { proto = p })

  own_value : OptionName → Socket S → Result Value
  own_value OptionName.recv_deadline s = ok (duration s.rdeadline)
  own_value OptionName.send_deadline s = ok (duration s.wdeadline)
  own_value OptionName.linger s = ok (duration s.linger)
  own_value OptionName.write_q_len s = ok (int s.uwq_len)
  own_value OptionName.read_q_len s = ok (int s.urq_len)
  own_value OptionName.max_recv_size s = ok (int s.max_rx_size)
  own_value OptionName.reconnect_time s = ok (duration s.reconntime)
  own_value OptionName.max_reconnect_time s = ok (duration s.reconnmax)
  own_value _ s = err bad_option

  value_of : Result Value → OptionName → Socket S → Result Value
  unfolding own_value
  value_of (ok v) name s = ok v
  value_of (err bad_option) name s = own_value name s
  value_of (err e) name s = err e

  unfoldable pub get_option : OptionName → Socket S → Result Value
  unfolding value_of
  get_option name s = value_of (P.get_option name s.proto) name s
