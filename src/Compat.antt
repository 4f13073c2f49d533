-- ===== src/Compat.antt =====
-- compat/compat.go: the interface of the older nanomsg bindings, over a socket. An option's value has the
-- type of the source's expression; a type assertion that fails in `SetOption` panics.
pub mod Timeouts
pub mod RawReplies
pub mod Endpoints
pub mod Requests
use mangos_v.Prelude.{
  ℕ, zero, suc, ◌+◌, ◌*◌, true, Bool, Option, none, some, List, [], ◌∷◌, ◌++◌, length, ◌==◌,
  if◌then◌else◌,
}
use mangos_v.Prelude.Bytes.{Bytes, bytes, slice}
use mangos_v.Prelude.Int.{ℤ, pos, negsuc}
use mangos_v.Errors.{Error, Result, bad_proto, err, ok}
use mangos_v.Message.{Message}
use mangos_v.Options.{OptionName, Value}
use mangos_v.Peers.{
  Kind, pair, pub_kind, sub, req, rep, push, pull, surveyor, respondent, bus, number,
}
use mangos_v.Core.{
  Got, Operations, RecvCase, SendCase, Sent, Socket, accepted, dropped, failed, failed_recv,
  message, panics_send, recv_msg, send_msg, waiting, waits,
}
use mangos_v.Core
use mangos_v.Core.Options as Own

pub record Compat (S : Type 0) : Type 0 where
  pub sock : Socket S
  pub dom : ℕ
  pub rto : ℤ
  pub sto : ℤ

-- The domains AF_SP and AF_SP_RAW.
abbrev pub af_sp : ℕ
af_sp = 0

abbrev pub af_sp_raw : ℕ
af_sp_raw = 1

-- The protocols of the `switch` of `NewSocket`, by their numbers.
unfoldable pub protocol_of : ℕ → Option Kind
unfolding number
protocol_of p =
    if p == number pub_kind
    then some pub_kind
    else if p == number sub
    then some sub
    else if p == number push
    then some push
    else if p == number pull
    then some pull
    else if p == number req
    then some req
    else if p == number rep
    then some rep
    else if p == number surveyor
    then some surveyor
    else if p == number respondent
    then some respondent
    else if p == number pair
    then some pair
    else if p == number bus
    then some bus
    else none

-- The result of `NewSocket`.
pub data Opened (S : Type 0) : Type 0 where
  opened : Compat S → Opened S
  refused : Error → Opened S
  bad_domain panics_opening : Opened S

-- What the calls give; `errNoFlag` is `no_flag`.
pub data Received : Type 0 where
  received : Bytes → Received
  failed_receive : Error → Received
  no_flag_received panics_receiving waits_receiving : Received

pub data Written : Type 0 where
  written : ℕ → Option Error → Written
  no_flag_written panics_writing waits_writing : Written

module _ {S : Type 0} (P : Operations S) where
  abbrev pub sized : ℕ → Socket S × Own.Outcome → Opened S
  sized dom (s, Own.done) = opened (record { sock = s; dom = dom; rto = negsuc 0; sto = negsuc 0 })
  sized dom (s, Own.refused e) = refused e
  sized dom (s, Own.panicked_option) = panics_opening

  -- `SetOption(OptionWriteQLen, 0)`, and what follows.
  abbrev pub domain_set : ℕ → Socket S × Own.Outcome → Opened S
  domain_set dom (s, Own.done) =
      sized dom (Own.set_option P OptionName.write_q_len (Value.int (pos 0)) s)
  domain_set dom (s, Own.refused e) = refused e
  domain_set dom (s, Own.panicked_option) = panics_opening

  -- `NewSocket` once it has the protocol, which is after its `Init`.
  unfoldable pub new_socket : ℕ → S → Opened S
  new_socket dom proto =
      let s = Core.new_socket proto in
      if dom == af_sp
      then domain_set dom (s, Own.done)
      else if dom == af_sp_raw
      then domain_set dom (Own.set_option P OptionName.raw (Value.bool true) s)
      else bad_domain

  -- The value that stands for a timeout: the constants -1 and 0 of the source are of type `int`.
  abbrev pub timeout_value : ℤ → Value
  timeout_value (pos (suc n)) = Value.duration (pos (suc n))
  timeout_value (pos zero) = Value.int (negsuc 0)
  timeout_value (negsuc n) = Value.int (pos 0)

  -- The bytes that `Recv` gives for a message.
  abbrev pub bytes_of : ℕ → Message → Bytes
  bytes_of dom m = if dom == af_sp_raw then bytes m.header ++ m.body else m.body

  abbrev pub received_from : Compat S → Socket S × Got → Compat S × Received
  received_from c (s, message m) = (record c { sock = s }, received (bytes_of c.dom m))
  received_from c (s, failed_recv e) = (record c { sock = s }, failed_receive e)
  received_from c (s, waiting) = (record c { sock = s }, waits_receiving)

  -- What follows `SetOption` of the deadline; its error, if there is one, is not looked at.
  abbrev pub receives_on : Compat S → List RecvCase → Socket S × Own.Outcome → Compat S × Received
  receives_on c cases (s, Own.panicked_option) = (record c { sock = s }, panics_receiving)
  receives_on c cases (s, outcome) = received_from c (recv_msg P cases s)

  -- `Recv`.
  unfoldable pub recv : ℤ → List RecvCase → Compat S → Compat S × Received
  recv (pos zero) cases c =
      receives_on c cases (Own.set_option P OptionName.recv_deadline (timeout_value c.rto) c.sock)
  recv _ cases c = (c, no_flag_received)

  abbrev pub written_by : Compat S → ℕ → Socket S × Sent → Compat S × Written
  written_by c n (s, accepted) = (record c { sock = s }, written n none)
  written_by c n (s, dropped) = (record c { sock = s }, written n none)
  written_by c n (s, failed e) = (record c { sock = s }, written n (some e))
  written_by c n (s, waits) = (record c { sock = s }, waits_writing)
  written_by c n (s, panics_send) = (record c { sock = s }, panics_writing)

  -- The message, from what `NewMessage` gives.
  abbrev pub holding : Message → Bytes → Message
  holding blank b = record blank { header = slice []; body = b }

  abbrev pub sends_on :
      Compat S → ℕ → SendCase → Message → ℕ → Socket S × Own.Outcome → Compat S × Written
  sends_on c now case m n (s, Own.panicked_option) = (record c { sock = s }, panics_writing)
  sends_on c now case m n (s, outcome) = written_by c n (send_msg P now case m s)

  -- `Send` at the time `now`.
  unfoldable pub send : ℕ → SendCase → Message → Bytes → ℤ → Compat S → Compat S × Written
  send now case blank b (pos zero) c =
      sends_on c now case (holding blank b) (length b)
        (Own.set_option P OptionName.send_deadline (timeout_value c.sto) c.sock)
  send now case blank b _ c = (c, no_flag_written)

unfoldable pub set_send_timeout : {S : Type 0} → ℤ → Compat S → Compat S
set_send_timeout d c = record c { sto = d }

unfoldable pub set_recv_timeout : {S : Type 0} → ℤ → Compat S → Compat S
set_recv_timeout d c = record c { rto = d }
