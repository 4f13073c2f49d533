-- ===== src/Req.antt =====
-- protocol/req/req.go: the requesting side of request/reply. Methods that mutate `*req` return the
-- new record; each function of a goroutine is one turn of its loop. A timer is the duration that it
-- is armed for, or `none` when it is stopped.
pub mod Calls
pub mod Identifiers
pub mod State
pub mod Values
use mangos_v.Prelude.{
  ℕ, ◌+◌, Bool, true, false, ◌&&◌, not, Option, none, some, [], ltb, ◌==◌, if◌then◌else◌, length,
  take, drop,
}
use mangos_v.Message.{Message}
use mangos_v.Protocol.{closing, ProtocolSocket, Ready, Received, deliver, set_recv_error, skip}
use mangos_v.Options.{bool, duration, OptionName, Value, as_bool, as_duration}
use mangos_v.Errors.{Error, Result, bad_option, bad_value, err, ok, proto_state}
use mangos_v.Waiter.{Waiter, add}
use mangos_v.Prelude.Bytes.{append, bytes, get_u32, put_u32, set_top, u32}
use mangos_v.Prelude.Int.{ltb_ℤ, pos, ℤ}
use mangos_v.Prelude.Table.{Table, delete, insert, lookup}
use mangos_v.Waiter

pub record Req : Type 0 where
  pub sock : ProtocolSocket
  pub eps : Table Bool  -- of each endpoint, whether its `cq` is closed
  pub raw : Bool
  pub retry : ℤ
  pub nextid : ℕ  -- uint32
  pub waker : Option ℤ
  pub w : Waiter
  pub started : Bool  -- whether `init.Do` has run
  pub reqmsg : Option Message
  pub reqid : ℕ  -- uint32

abbrev minute : ℕ
minute = 60_000_000_000

-- `Init`; the clock gives the first identifier.
unfoldable pub init : ℕ → ProtocolSocket → Req
unfolding set_recv_error Waiter.init
init clock sock = record {
  sock = set_recv_error (some proto_state) sock;
  eps = [];
  raw = false;
  retry = pos minute;
  nextid = u32 clock;
  waker = none;
  w = Waiter.init;
  started = false;
  reqmsg = none;
  reqid = 0;
}

-- The identifier, and the state with the counter moved on.
unfoldable pub next_id : Req → ℕ × Req
next_id r = (set_top r.nextid, record r { nextid = u32 (r.nextid + 1) })

-- `waker.Reset(retry)` if the retry time is positive, else `waker.Stop()`.
abbrev pub rearm : ℤ → Option ℤ
rearm d = if ltb_ℤ (pos 0) d then some d else none

-- `resender`, when the timer fires: the message that it sends to the `resend` channel.
unfoldable pub fire : Req → Req × Option Message
fire r = (record r { waker = none }, r.reqmsg)

-- `resender`, after a sender took that message.
unfoldable pub refire : Req → Req
refire r = record r { waker = rearm r.retry }

-- `receiver`. Its `break` leaves only the `select`, so a closing socket does not stop the loop.
unfoldable pub receiver : Ready → Message → Received
receiver ready m = if ltb (length m.body) 4 then skip else elim ready [
  | closing ↦ skip
  | _ ↦ deliver (record m { header = append m.header (take 4 m.body); body = drop 4 m.body })
]

-- `sender`, after it took `m` from `resend` or from the send queue: what it puts back on `resend`,
-- and whether it goes on. `sent` tells whether the endpoint's `SendMsg` succeeded.
unfoldable pub sender : Bool → Message → Option Message × Bool
sender sent m = if sent then (none, true) else (some m, false)

-- The first endpoint also starts the resender; each one starts a sender.
unfoldable pub add_endpoint : ℕ → Req → Req
unfolding Waiter.add
add_endpoint id r =
    let w' = if r.started then r.w else Waiter.add r.w in
    record r { started = true; eps = insert id false r.eps; w = Waiter.add w' }

-- With the state, the closed `cq` of the endpoint's sender, if the endpoint was known.
unfoldable pub remove_endpoint : ℕ → Req → Req × Option Bool
remove_endpoint id r = (
  record r { eps = delete id r.eps },
  elim (lookup id r.eps) [ none ↦ none | some q ↦ some true ],
)

unfoldable pub send_hook : Req → Message → Req × Message × Bool
unfolding next_id set_recv_error
send_hook r m =
    let (v, r') = next_id r in
    let m' = record m { header = append m.header (put_u32 v) } in
    if r.raw then (r, m, true) else (
      record r' {
        reqid = v;
        reqmsg = some m';
        waker = rearm r.retry;
        sock = set_recv_error none r.sock;
      },
      m',
      true,
    )

abbrev is_some : Option Message → Bool
is_some none = false
is_some (some m) = true

-- The tests of `RecvHook` in cooked mode: a header of four bytes, an outstanding request, and its
-- identifier.
abbrev pub answers : Req → Message → Bool
answers r m =
    not (ltb (length (bytes m.header)) 4) && is_some r.reqmsg && get_u32 (bytes m.header) == r.reqid

unfoldable pub recv_hook : Req → Message → Req × Message × Bool
unfolding set_recv_error
recv_hook r m =
    if r.raw
    then (r, m, true)
    else if answers r m
    then (
      record r { waker = none; reqmsg = none; sock = set_recv_error (some proto_state) r.sock },
      m,
      true,
    )
    else (r, m, false)

-- `r.raw, ok = value.(bool)`: the assignment is made also where the assertion fails.
set_raw : Option Bool → Req → Req × Option Error
set_raw none r = (record r { raw = false }, some bad_value)
set_raw (some true) r = (record r { raw = true; sock = set_recv_error none r.sock }, none)
set_raw (some false) r =
    (record r { raw = false; sock = set_recv_error (some proto_state) r.sock }, none)

set_retry : Option ℤ → Req → Req × Option Error
set_retry none r = (record r { retry = pos 0 }, some bad_value)
set_retry (some d) r = (record r { retry = d }, none)

unfoldable pub set_option : OptionName → Value → Req → Req × Option Error
unfolding set_raw set_retry set_recv_error
set_option OptionName.raw v r = set_raw (as_bool v) r
set_option OptionName.retry_time v r = set_retry (as_duration v) r
set_option _ v r = (r, some bad_option)

unfoldable pub get_option : OptionName → Req → Result Value
get_option OptionName.raw r = ok (bool r.raw)
get_option OptionName.retry_time r = ok (duration r.retry)
get_option _ r = err bad_option
