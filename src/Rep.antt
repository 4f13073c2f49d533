-- ===== src/Rep.antt =====
-- protocol/rep/rep.go: the replying side of request/reply. Methods that mutate `*rep` return the
-- new record. Blocking on channels and timers is left to the caller: each function is one turn of
-- the loop that the goroutine runs.
pub mod Safety
pub mod Reply
use mangos_v.Prelude.{
  ℕ, Bool, true, false, ◌||◌, not, Option, none, some, [], ltb, if◌then◌else◌, length,
}
use mangos_v.Prelude.Bytes.{Slice, bytes, append, skip4, reset, put_u32, get_u32, slice}
use mangos_v.Prelude.Int.{ℤ, pos, ltb_ℤ, pos_part}
use mangos_v.Prelude.Table.{Table, lookup, insert, delete}
use mangos_v.Errors.{Error, bad_option, bad_value, proto_state, Result, ok, err}
use mangos_v.Options.{OptionName, Value, bool, int, as_bool, as_int}
use mangos_v.Message.{Message}
use mangos_v.Chan.{Chan, taken, full, panics, make, offer, close, close_all}
use mangos_v.Waiter.{Waiter, add}
use mangos_v.Protocol.{
  ProtocolSocket, set_send_error, Received, deliver, stop, Ready, closing, Routed, queued, dropped,
  panicked,
}
use mangos_v.Backtrace.{move_backtrace}
use mangos_v.Waiter

pub record Rep : Type 0 where
  pub sock : ProtocolSocket
  pub eps : Table (Chan Message)
  pub backtrace : Slice
  pub raw : Bool
  pub ttl : ℕ
  pub w : Waiter

unfoldable pub init : ProtocolSocket → Rep
unfolding set_send_error Waiter.init Waiter.add
init sock = record {
  sock = set_send_error (some proto_state) sock;
  eps = [];
  backtrace = Slice.nil;
  raw = false;
  ttl = 8;
  w = Waiter.add Waiter.init;
}

-- `Shutdown` after its waits: the peers that it took, with their queues closed.
unfoldable pub shutdown : Rep → Rep × Table (Chan Message)
shutdown r = (record r { eps = [] }, close_all r.eps)

-- `receiver`: one message of the endpoint `id`.
unfoldable pub receiver : Rep → ℕ → Ready → Message → Received
receiver r id ready m = elim (move_backtrace r.ttl (append m.header (put_u32 id)) m.body) [
  | none ↦ stop
  | some (h, b) ↦ elim ready [ closing ↦ stop | _ ↦ deliver (record m { header = h; body = b }) ]
]

-- The `select` at the end of `sender`.
enqueue : Rep → ℕ → Chan Message → Message → Rep × Routed
enqueue r id q m = elim (offer q m) [
  | taken q' ↦ (record r { eps = insert id q' r.eps }, queued id m)
  | full ↦ (r, dropped)
  | panics ↦ (r, panicked)
]

-- `(*rep).sender`: one message of the socket's send queue.
unfoldable pub sender : Rep → Message → Rep × Routed
unfolding enqueue offer
sender r m =
    let id = get_u32 (bytes m.header) in
    let m' = record m { header = skip4 m.header } in
    if ltb (length (bytes m.header)) 4
    then (r, dropped)
    else elim (lookup id r.eps) [ none ↦ (r, dropped) | some q ↦ enqueue r id q m' ]

unfoldable pub add_endpoint : ℕ → Rep → Rep
unfolding make
add_endpoint id r = record r { eps = insert id (make 2) r.eps }

-- With the state, the queue that was closed, if there was one.
unfoldable pub remove_endpoint : ℕ → Rep → Rep × Option (Chan Message)
unfolding close
remove_endpoint id r = (
  record r { eps = delete id r.eps },
  elim (lookup id r.eps) [ none ↦ none | some q ↦ some (close q) ],
)

unfoldable pub recv_hook : Rep → Message → Rep × Message × Bool
unfolding set_send_error
recv_hook r m = if r.raw then (r, m, true) else (
  record r {
    sock = set_send_error none r.sock;
    backtrace = append (Slice.slice []) (bytes m.header);
  },
  record m { header = Slice.nil },
  true,
)

abbrev is_nil : Slice → Bool
is_nil Slice.nil = true
is_nil (Slice.slice b) = false

unfoldable pub send_hook : Rep → Message → Rep × Message × Bool
unfolding set_send_error
send_hook r m =
    let h = append (reset m.header) (bytes r.backtrace) in
    if r.raw then (r, m, true) else (
      record r { sock = set_send_error (some proto_state) r.sock; backtrace = Slice.nil },
      record m { header = h },
      not (is_nil h),
    )

-- `r.raw, ok = v.(bool)`: the assignment is made also where the assertion fails.
set_raw : Option Bool → Rep → Rep × Option Error
set_raw none r = (record r { raw = false }, some bad_value)
set_raw (some true) r = (record r { raw = true; sock = set_send_error none r.sock }, none)
set_raw (some false) r =
    (record r { raw = false; sock = set_send_error (some proto_state) r.sock }, none)

set_ttl : Option ℤ → Rep → Rep × Option Error
set_ttl none r = (r, some bad_value)
set_ttl (some t) r =
    if ltb_ℤ t (pos 1) || ltb_ℤ (pos 255) t
    then (r, some bad_value)
    else (record r { ttl = pos_part t }, none)

unfoldable pub set_option : OptionName → Value → Rep → Rep × Option Error
unfolding set_raw set_ttl set_send_error
set_option OptionName.raw v r = set_raw (as_bool v) r
set_option OptionName.ttl v r = set_ttl (as_int v) r
set_option _ v r = (r, some bad_option)

unfoldable pub get_option : OptionName → Rep → Result Value
get_option OptionName.raw r = ok (bool r.raw)
get_option OptionName.ttl r = ok (int (pos r.ttl))
get_option _ r = err bad_option
