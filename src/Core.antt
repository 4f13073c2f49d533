-- ===== src/Core.antt =====
-- core.go: the socket that an application holds. It couples a protocol, given by its operations,
-- with a queue in each direction. What runs under the socket's lock is one step; which case of a
-- `select` fires is an argument, and a case that is not ready leaves the call waiting.
pub mod Options
pub mod Values
pub mod Sending
pub mod Receiving
pub mod Requests
pub mod Surveys
pub mod Pipes
pub mod Addresses
use mangos_v.Prelude.{
  ℕ, ◌+◌, ◌-◌, Bool, true, false, not, Option, none, some, List, [], ◌∷◌, ◌==◌, if◌then◌else◌,
}
use mangos_v.Errors.{closed, Error, Result, recv_timeout, send_timeout}
use mangos_v.Chan.{taken, full, panics, Chan, make, offer}
use mangos_v.Message.{Message}
use mangos_v.Options.{OptionName, Value}
use mangos_v.Protocol.{ProtocolSocket}
use mangos_v.Prelude.Int.{neg_part, pos, pos_part, ℤ}

-- A protocol as the socket sees it (protocol.go, lines 44 to 110); a hook may be missing.
pub record Operations (S : Type 0) : Type 0 where
  pub sock : S → ProtocolSocket
  pub set_option : OptionName → Value → S → S × Option Error
  pub get_option : OptionName → S → Result Value
  pub send_hook : Option (S → Message → S × Message × Bool)
  pub recv_hook : Option (S → Message → S × Message × Bool)
  pub add_endpoint : ℕ → S → S
  pub remove_endpoint : ℕ → S → S
  pub shutdown : S → S

-- The errors to return are those that the protocol has set in its `sock`.
pub record Socket (S : Type 0) : Type 0 where
  pub proto : S
  pub uwq : Chan Message
  pub uwq_len : ℤ
  pub urq : Chan Message
  pub urq_len : ℤ
  pub is_closing : Bool
  pub active : Bool
  pub best_effort : Bool
  pub rdeadline : ℤ
  pub wdeadline : ℤ
  pub reconntime : ℤ
  pub reconnmax : ℤ
  pub linger : ℤ
  pub max_rx_size : ℤ
  pub pipes : Option (List ℕ)  -- `none` is the nil map of a closed socket

abbrev default_q_len : ℕ
default_q_len = 128

-- `newSocket`, with the protocol after its `Init`.
unfoldable pub new_socket : {S : Type 0} → S → Socket S
unfolding make
new_socket proto = record {
  proto = proto;
  uwq = make default_q_len;
  uwq_len = pos default_q_len;
  urq = make default_q_len;
  urq_len = pos default_q_len;
  is_closing = false;
  active = false;
  best_effort = false;
  rdeadline = pos 0;
  wdeadline = pos 0;
  reconntime = pos 100_000_000;
  reconnmax = pos 0;
  linger = pos 1_000_000_000;
  max_rx_size = pos 1_048_576;
  pipes = some [];
}

-- `mkTimer` gives a timer that fires unless the duration is zero.
abbrev pub has_timer : ℤ → Bool
has_timer d = not (pos_part d + neg_part d == 0)

-- `time.Now().Add(d)`.
abbrev pub later : ℕ → ℤ → ℕ
later now d = now + pos_part d - neg_part d

-- The cases of the `select` of `SendMsg`.
pub data SendCase : Type 0 where
  times_out closes queues : SendCase

-- What becomes of the message: it is queued, freed with no error, or left to the caller with an
-- error; or the call still waits, or panics.
pub data Sent : Type 0 where
  accepted dropped waits panics_send : Sent
  failed : Error → Sent

module _ {S : Type 0} (P : Operations S) where
  -- The `select` of a socket that is not best effort.
  send_select : SendCase → Message → Socket S → Socket S × Sent
  send_select times_out m s = (s, if has_timer s.wdeadline then failed send_timeout else waits)
  send_select closes m s = (s, if s.is_closing then failed closed else waits)
  send_select queues m s = elim (offer s.uwq m) [
    | taken q ↦ (record s { uwq = q }, accepted)
    | full ↦ (s, waits)
    | panics ↦ (s, panics_send)
  ]

  -- The `select` with a default case, which fires only if no other is ready.
  try_queue : Message → Socket S → Socket S × Sent
  try_queue m s = elim (offer s.uwq m) [
    | taken q ↦ (record s { uwq = q }, accepted)
    | full ↦ (s, if s.is_closing then failed closed else dropped)
    | panics ↦ (s, panics_send)
  ]

  send_best_effort : SendCase → Message → Socket S → Socket S × Sent
  send_best_effort closes m s = if s.is_closing then (s, failed closed) else try_queue m s
  send_best_effort _ m s = try_queue m s

  abbrev pub hooked : Option (S → Message → S × Message × Bool) → S → Message → S × Message × Bool
  hooked none p m = (p, m, true)
  hooked (some hook) p m = hook p m

  -- `SendMsg` at the time `now`.
  unfoldable pub send_msg : ℕ → SendCase → Message → Socket S → Socket S × Sent
  unfolding send_select send_best_effort try_queue
  send_msg now c m s =
      let (p, m', passed) = hooked P.send_hook s.proto m in
      let s' : Socket S = record s { proto = p } in
      let out : Message = record m' {
        expire = if has_timer s.wdeadline then some (later now s.wdeadline) else none;
      } in
      elim (P.sock s.proto).senderr [
        | some e ↦ (s, failed e)
        | none ↦
            if not passed
            then (s', dropped)
            else if s.best_effort
            then send_best_effort c out s'
            else send_select c out s'
      ]

-- The cases of the `select` of `RecvMsg`.
pub data RecvCase : Type 0 where
  expires arrives shuts wakes : RecvCase

pub data Got : Type 0 where
  message : Message → Got
  failed_recv : Error → Got
  waiting : Got

-- One turn of the loop of `RecvMsg`.
pub data Turn (S : Type 0) : Type 0 where
  again : Socket S → Turn S
  returns : Socket S → Got → Turn S

module _ {S : Type 0} (P : Operations S) where
  -- `m := <-sock.urq`, with the hook.
  hand_up : Socket S → List Message → Turn S
  hand_up s [] = again s
  hand_up s (m ∷ rest) =
      let (p, m', passed) = hooked P P.recv_hook s.proto m in
      let q = s.urq in
      let s' : Socket S = record s { proto = p; urq = record q { items = rest } } in
      if passed then returns s' (message m') else again s'

  recv_turn : RecvCase → Socket S → Turn S
  unfolding hand_up
  recv_turn expires s =
      if has_timer s.rdeadline then returns s (failed_recv recv_timeout) else again s
  recv_turn arrives s = hand_up s s.urq.items
  recv_turn shuts s = if s.is_closing then returns s (failed_recv closed) else again s
  recv_turn wakes s = again s

  -- `RecvMsg`: the cases that fire, in order; after the last one the call still waits.
  unfoldable pub recv_msg : List RecvCase → Socket S → Socket S × Got
  unfolding recv_turn
  recv_msg [] s = (s, elim (P.sock s.proto).recverr [ some e ↦ failed_recv e | none ↦ waiting ])
  recv_msg (c ∷ cs) s = elim (P.sock s.proto).recverr [
    | some e ↦ (s, failed_recv e)
    | none ↦ elim (recv_turn c s) [ again s' ↦ recv_msg cs s' | returns s' got ↦ (s', got) ]
  ]
