-- ===== src/Respondent.antt =====
-- protocol/respondent/respondent.go: the answering side of surveys. The return path of a survey is
-- moved to the header by the loop of `Backtrace`.
pub mod Reply
pub mod Race
use mangos_v.Prelude.{
  ℕ, Bool, true, false, ◌||◌, not, Option, none, some, [], ltb, ◌==◌, if◌then◌else◌, length,
}
use mangos_v.Message.{Message}
use mangos_v.Chan.{Chan, taken, full, panics, close, close_all, make, offer}
use mangos_v.Options.{bool, int, OptionName, Value, as_bool, as_int}
use mangos_v.Protocol.{
  closing, panicked, ProtocolSocket, Ready, Received, Routed, deliver, dropped, queued,
  set_send_error, skip, stop,
}
use mangos_v.Errors.{Error, Result, bad_option, bad_value, err, ok, proto_state}
use mangos_v.Prelude.Bytes.{Slice, append, bytes, get_u32, put_u32, reset, skip4, slice}
use mangos_v.Prelude.Table.{Table, delete, insert, lookup}
use mangos_v.Waiter.{Waiter, add}
use mangos_v.Prelude.Int.{ltb_ℤ, pos, pos_part, ℤ}
use mangos_v.Backtrace.{move_backtrace}
use mangos_v.Waiter

pub record Respondent : Type 0 where
  pub sock : ProtocolSocket
  pub peers : Table (Chan Message)
  pub raw : Bool
  pub ttl : ℕ
  pub backbuf : Slice
  pub backtrace : Slice
  pub w : Waiter

unfoldable pub init : ProtocolSocket → Respondent
unfolding set_send_error Waiter.init Waiter.add
init sock = record {
  sock = set_send_error (some proto_state) sock;
  peers = [];
  raw = false;
  ttl = 8;
  backbuf = slice [];
  backtrace = Slice.nil;
  w = Waiter.add Waiter.init;
}

-- `Shutdown` after its waits: the peers that it took, with their queues closed.
unfoldable pub shutdown : Respondent → Respondent × Table (Chan Message)
shutdown x = (record x { peers = [] }, close_all x.peers)

-- `(*resp).sender`, up to the unlock: the peer that a message of the send queue goes to, with the
-- message as it is sent; `none` if the message is dropped.
unfoldable pub find_peer : Respondent → Message → Option (ℕ × Message)
find_peer x m =
    let id = get_u32 (bytes m.header) in
    if ltb (length (bytes m.header)) 4 then none else elim (lookup id x.peers) [
      | none ↦ none
      | some q ↦ some (id, record m { header = skip4 m.header })
    ]

-- `(*resp).sender`, after the unlock, if the peer's queue is still `q`.
unfoldable pub push : Respondent → ℕ → Chan Message → Message → Respondent × Routed
push x id q m = elim (offer q m) [
  | taken q' ↦ (record x { peers = insert id q' x.peers }, queued id m)
  | full ↦ (x, dropped)
  | panics ↦ (x, panicked)
]

-- Both halves, with no other goroutine between them.
unfoldable pub sender : Respondent → Message → Respondent × Routed
unfolding find_peer push
sender x m = elim (find_peer x m) [
  | none ↦ (x, dropped)
  | some (id, m') ↦ elim (lookup id x.peers) [ none ↦ (x, dropped) | some q ↦ push x id q m' ]
]

-- `receiver`: one message of the endpoint `id`. A message whose path is too long or broken is
-- skipped.
unfoldable pub receiver : Respondent → ℕ → Ready → Message → Received
receiver x id ready m = elim (move_backtrace x.ttl (append m.header (put_u32 id)) m.body) [
  | none ↦ skip
  | some (h, b) ↦ elim ready [ closing ↦ stop | _ ↦ deliver (record m { header = h; body = b }) ]
]

unfoldable pub recv_hook : Respondent → Message → Respondent × Message × Bool
unfolding set_send_error
recv_hook x m =
    let emptied = reset x.backbuf in
    if x.raw then (x, m, true) else if ltb (length (bytes m.header)) 4 then (x, m, false) else (
      record x {
        backbuf = emptied;
        backtrace = append emptied (bytes m.header);
        sock = set_send_error none x.sock;
      },
      m,
      true,
    )

unfoldable pub send_hook : Respondent → Message → Respondent × Message × Bool
unfolding set_send_error
send_hook x m =
    let h = append (reset m.header) (bytes x.backtrace) in
    if x.raw then (x, m, true) else (
      record x { sock = set_send_error (some proto_state) x.sock; backtrace = Slice.nil },
      record m { header = h },
      not (length (bytes h) == 0),
    )

unfoldable pub add_endpoint : ℕ → Respondent → Respondent
add_endpoint id x = record x { peers = insert id (make 1) x.peers }

unfoldable pub remove_endpoint : ℕ → Respondent → Respondent × Option (Chan Message)
remove_endpoint id x = (
  record x { peers = delete id x.peers },
  elim (lookup id x.peers) [ none ↦ none | some q ↦ some (close q) ],
)

-- `x.raw, ok = v.(bool)`: the assignment is made also where the assertion fails.
set_raw : Option Bool → Respondent → Respondent × Option Error
set_raw none x = (record x { raw = false }, some bad_value)
set_raw (some true) x = (record x { raw = true; sock = set_send_error none x.sock }, none)
set_raw (some false) x =
    (record x { raw = false; sock = set_send_error (some proto_state) x.sock }, none)

set_ttl : Option ℤ → Respondent → Respondent × Option Error
set_ttl none x = (x, some bad_value)
set_ttl (some t) x =
    if ltb_ℤ t (pos 1) || ltb_ℤ (pos 255) t
    then (x, some bad_value)
    else (record x { ttl = pos_part t }, none)

unfoldable pub set_option : OptionName → Value → Respondent → Respondent × Option Error
unfolding set_raw set_ttl set_send_error
set_option OptionName.raw v x = set_raw (as_bool v) x
set_option OptionName.ttl v x = set_ttl (as_int v) x
set_option _ v x = (x, some bad_option)

unfoldable pub get_option : OptionName → Respondent → Result Value
get_option OptionName.raw x = ok (bool x.raw)
get_option OptionName.ttl x = ok (int (pos x.ttl))
get_option _ x = err bad_option
