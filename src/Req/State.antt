-- ===== src/Req/State.antt =====
-- What holds of a cooked REQ socket between two calls.
use mangos_v.Prelude.{
  ℕ, ◌≡◌, refl, ap, ◌≢◌, ◌⊎◌, inl, inr, Bool, true, false, Option, none, some, List, [], ◌∷◌, ◌++◌,
  arith, ltb-false,
}
use mangos_v.Options.{OptionName, Value, as_bool, as_duration}
use mangos_v.Req.{
  Req, add_endpoint, remove_endpoint, set_option, set_raw, set_retry, fire, init, next_id, rearm,
  recv_hook, refire, send_hook, receiver,
}
use mangos_v.Req.Calls.{Call, sends, receives, fires, refires, step, pending}
use mangos_v.Message.{Message}
use mangos_v.Protocol.{up, ProtocolSocket, set_recv_error, deliver}
use mangos_v.Errors.{Error, proto_state}
use mangos_v.Req.Identifiers.{IsCounter, next_id-IsRequestId}
use mangos_v.Backtrace.Paths.{IsRequestId}
use mangos_v.Prelude.Bytes.{Slice, append, put_u32, Bytes, not-short, bytes, get-put_u32}
use mangos_v.Prelude.Int.{ℤ}

-- The header of a message ends in the identifier `id`.
abbrev pub EndsIn : ℕ → Message → Type 0
EndsIn id m = (h : Slice) × (m.header ≡ append h (put_u32 id))

abbrev Names : ℕ → Option Message → Type 0
Names id none = Unit {0}
Names id (some m) = EndsIn id m × IsRequestId id

-- What `Recv` reports: an error unless a request is outstanding.
abbrev pub expected_error : Option Message → Option Error
expected_error none = some proto_state
expected_error (some m) = none

pub record Inv (r : Req) : Type 0 where
  pub cooked : r.raw ≡ false
  pub counter : IsCounter r
  pub reports : r.sock.recverr ≡ expected_error r.reqmsg
  pub named : Names r.reqid r.reqmsg

-- Each call keeps the invariant.
pub step-Inv : (r : Req) (c : Call) → Inv r → Inv (step r c)
unfolding step
step-Inv r (sends m) v =
    unfold send_hook set_recv_error next_id in
    rw (v.cooked) (record {
      cooked = refl;
      counter = omega arith;
      reports = refl;
      named = ((m.header, refl), omega arith);
    })
step-Inv r (receives m) v = unfold recv_hook set_recv_error in ground arith
step-Inv r fires v = unfold fire in ground arith
step-Inv r refires v = unfold refire in ground arith

pub run : Req → List Call → Req
run r [] = r
run r (c ∷ cs) = run (step r c) cs

run-Inv : (r : Req) (cs : List Call) → Inv r → Inv (run r cs)
unfolding run
run-Inv r [] v = v
run-Inv r (c ∷ cs) v = run-Inv (step r c) cs (step-Inv r c v)

init-Inv : (clock : ℕ) (sock : ProtocolSocket) → Inv (init clock sock)
unfolding init set_recv_error
init-Inv clock sock = record { cooked = refl; counter = omega arith; reports = refl; named = tt }

-- After any history of a new socket (requests sent, messages received, timer events), the socket is
-- cooked with a counter of 32 bits, `Recv` reports an error exactly while no request is
-- outstanding, and the message kept for resending ends in the identifier that replies are compared
-- with.
pub history-Inv :
    (clock : ℕ) (sock : ProtocolSocket) (cs : List Call) → Inv (run (init clock sock) cs)
history-Inv clock sock cs = run-Inv (init clock sock) cs (init-Inv clock sock)

-- The timer runs with the retry time, or is stopped where that is not positive, while a request is
-- outstanding.
abbrev pub Armed : Option Message → Option ℤ → ℤ → Type 0
Armed none timer d = Unit {0}
Armed (some m) timer d = timer ≡ rearm d

-- The calls of the socket on the protocol, with the turns of the resender.
pub data SocketCall : Type 0 where
  calls : Call → SocketCall
  sets : OptionName → Value → SocketCall
  adds removes : ℕ → SocketCall

abbrev pub socket_step : Req → SocketCall → Req
socket_step r (calls c) = step r c
socket_step r (sets o v) = (set_option o v r).0
socket_step r (adds id) = add_endpoint id r
socket_step r (removes id) = (remove_endpoint id r).0

-- The retry time that was in force when the timer was last set, after a call, given the one before it.
abbrev pub due : Req → SocketCall → ℤ → ℤ
due r (calls (sends m)) d = r.retry
due r (calls refires) d = r.retry
due r c d = d

rearm-Armed : (o : Option Message) (d : ℤ) → Armed o (rearm d) d
rearm-Armed none d = tt
rearm-Armed (some m) d = refl

recv_hook-state :
    (r : Req) (m : Message)
    → r.raw ≡ false
    → ((recv_hook r m).0.reqmsg ≡ none) ⊎ ((recv_hook r m).0 ≡ r)
unfolding recv_hook
recv_hook-state r m cooked = ground arith

call-Armed :
    (r : Req) (c : Call) (d : ℤ)
    → r.raw ≡ false
    → c ≢ fires
    → Armed r.reqmsg r.waker d
    → Armed (step r c).reqmsg (step r c).waker (due r (calls c) d)
unfolding step send_hook next_id refire
call-Armed r (sends m) d cooked h a = rw cooked refl
call-Armed r (receives m) d cooked h a = elim (recv_hook-state r m cooked) [
  | inl e ↦ rw e tt
  | inr e ↦ rw e a
]
call-Armed r fires d cooked h a = absurd (h refl)
call-Armed r refires d cooked h a = rearm-Armed r.reqmsg r.retry

SameTimer : Req → Req → Type 0
SameTimer r r' = (r'.reqmsg ≡ r.reqmsg) × (r'.waker ≡ r.waker)

set_raw-SameTimer : (r : Req) (b : Option Bool) → SameTimer r (set_raw b r).0
unfolding set_raw SameTimer
set_raw-SameTimer r none = (refl, refl)
set_raw-SameTimer r (some true) = (refl, refl)
set_raw-SameTimer r (some false) = (refl, refl)

set_retry-SameTimer : (r : Req) (d : Option ℤ) → SameTimer r (set_retry d r).0
unfolding set_retry SameTimer
set_retry-SameTimer r none = (refl, refl)
set_retry-SameTimer r (some d) = (refl, refl)

-- An option changes neither the outstanding request nor its timer.
set_option-SameTimer : (r : Req) (o : OptionName) (v : Value) → SameTimer r (set_option o v r).0
unfolding set_option SameTimer
set_option-SameTimer r OptionName.raw v = set_raw-SameTimer r (as_bool v)
set_option-SameTimer r OptionName.retry_time v = set_retry-SameTimer r (as_duration v)
set_option-SameTimer r _ v = (refl, refl)

-- On a cooked socket, every call of the socket but the firing of the timer (sending, receiving, resending, setting an
-- option, a pipe that comes or goes) keeps it true that the timer of an outstanding request is set to the retry time that was
-- in force when it was last set, by a sending or a resending, or is stopped where that time is not positive. So a new retry time holds from the next
-- sending or resending.
pub step-IsArmed :
    (r : Req) (c : SocketCall) (d : ℤ)
    → r.raw ≡ false
    → c ≢ calls fires
    → Armed r.reqmsg r.waker d
    → let r' = socket_step r c in Armed r'.reqmsg r'.waker (due r c d)
unfolding add_endpoint remove_endpoint SameTimer
step-IsArmed r (calls c) d cooked h a = call-Armed r c d cooked (λ e. h (ap calls e)) a
step-IsArmed r (sets o v) d cooked h a =
    let (same, timer) = set_option-SameTimer r o v in rw (same, timer) a
step-IsArmed r (adds id) d cooked h a = a
step-IsArmed r (removes id) d cooked h a = a

-- Raw mode hands messages on as they are.
pub recv_hook_raw : (r : Req) (m : Message) → r.raw ≡ true → recv_hook r m ≡ (r, m, true)
unfolding recv_hook
recv_hook_raw r m raw_mode = ground arith

pub send_hook_raw : (r : Req) (m : Message) → r.raw ≡ true → send_hook r m ≡ (r, m, true)
unfolding send_hook
send_hook_raw r m raw_mode = ground arith

-- The receiver moves the first word of the body to the header.
pub receiver_word :
    (m : Message) (v : ℕ) (rest : Bytes)
    → m.body ≡ put_u32 v ++ rest
    → receiver up m ≡ deliver (record m { header = append m.header (put_u32 v); body = rest })
unfolding receiver put_u32
receiver_word m v rest e = rw (e, ltb-false _ 4 (not-short v rest)) refl

-- The reply to the request just sent is accepted as it is.
pub recv_hook-send_hook :
    (r : Req) (m reply : Message) (rest : Bytes)
    → r.raw ≡ false
    → bytes reply.header ≡ put_u32 (next_id r).0 ++ rest
    → let (r', got, accepted) = recv_hook (send_hook r m).0 reply in
      (accepted ≡ true) × (got ≡ reply) × (pending r' ≡ [])
unfolding send_hook recv_hook
recv_hook-send_hook r m reply rest cooked e =
    rw (cooked, e)
      (ground (
        arith,
        get-put_u32 (next_id r).0 rest,
        not-short (next_id r).0 rest,
        next_id-IsRequestId r,
      ))
