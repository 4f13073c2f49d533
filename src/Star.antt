-- ===== src/Star.antt =====
-- protocol/star/star.go: STAR, where each message goes to all peers, and a peer that receives one
-- passes it on with its hop count raised.
pub mod Laws
use mangos_v.Prelude.{
  ℕ, ◌+◌, ◌%◌, Bool, true, false, ◌&&◌, ◌||◌, not, Option, none, some, [], ◌∷◌, leb, ◌==◌,
  if◌then◌else◌,
}
use mangos_v.Message.{Message, Counted, release}
use mangos_v.Chan.{Chan, close, close_all, make}
use mangos_v.Options.{bool, int, OptionName, Value, as_bool, as_int, or_zero}
use mangos_v.Protocol.{up, ProtocolSocket, Ready, no_room}
use mangos_v.Prelude.Bytes.{Bytes, append}
use mangos_v.Errors.{Error, Result, bad_option, bad_value, err, ok}
use mangos_v.Fan.{Fanned, fan_out}
use mangos_v.Prelude.Table.{Table, delete, insert, lookup}
use mangos_v.Waiter.{Waiter, add}
use mangos_v.Prelude.Int.{ltb_ℤ, pos, pos_part, ℤ}
use mangos_v.Waiter

pub record Star : Type 0 where
  pub sock : ProtocolSocket
  pub eps : Table (Chan Message)
  pub raw : Bool
  pub w : Waiter
  pub ttl : ℕ

unfoldable pub init : ProtocolSocket → Star
unfolding Waiter.init Waiter.add
init sock = record { sock = sock; eps = []; raw = false; w = Waiter.add Waiter.init; ttl = 8 }

-- `Shutdown` after its waits: the peers that it took, with their queues closed.
unfoldable pub shutdown : Star → Star × Table (Chan Message)
shutdown x = (record x { eps = [] }, close_all x.eps)

-- What `broadcast` does with the message after the peers have been offered it: it goes up to the
-- socket, or its reference is released.
pub record Broadcast : Type 0 where
  pub state : Star
  pub message : Counted
  pub sent_up : Bool
  pub panicked : Bool

abbrev is_sender : Option ℕ → ℕ → Bool
is_sender none id = false
is_sender (some from) id = from == id

-- The peers are left alone if a raw socket got the message from one of them.
offered : Star → Counted → Option ℕ → Fanned
offered x m from =
    let f = fan_out (is_sender from) m x.eps in
    let alone : Fanned = record { message = m; peers = x.eps; panicked = false } in
    elim from [ none ↦ f | some _ ↦ if x.raw then alone else f ]

goes_up : Option ℕ → Ready → Bool
goes_up none ready = false
goes_up (some _) up = true
goes_up (some _) _ = false

-- `broadcast`; the sender is a peer, or `none` for the application. A send to `urq` that is ready
-- hands the message's reference on.
unfoldable pub broadcast : Star → Counted → Option ℕ → Ready → Broadcast
unfolding offered goes_up
broadcast x m from ready =
    let f = offered x m from in
    let is_up = goes_up from ready in
    record {
      state = record x { eps = f.peers };
      message = if f.panicked || is_up then f.message else release f.message;
      sent_up = not f.panicked && is_up;
      panicked = f.panicked;
    }

-- `sender`: one message of the send queue.
unfoldable pub sender : Star → Counted → Broadcast
sender x m = broadcast x m none no_room

accept_body : ℕ → Message → Bytes → Option Message
accept_body ttl m (a ∷ b ∷ c ∷ hops ∷ rest) =
    if not (a == 0) || not (b == 0) || not (c == 0)
    then none
    else if leb ttl hops
    then none
    else some
        (record m { header = append m.header (0 ∷ 0 ∷ 0 ∷ ((hops + 1) % 256) ∷ []); body = rest })
accept_body ttl m _ = none

-- The checks of `receiver`, and the message that it broadcasts: the hop count goes to the header,
-- raised by one as a byte.
unfoldable pub accept : ℕ → Message → Option Message
unfolding accept_body
accept ttl m = accept_body ttl m m.body

-- `receiver`: one message of the endpoint `id`; `none` if it is refused and freed.
unfoldable pub receiver : Star → ℕ → Ready → Counted → Option Broadcast
receiver x id ready m = elim (accept x.ttl m.msg) [
  | none ↦ none
  | some m' ↦ some (broadcast x (record m { msg = m' }) (some id) ready)
]

-- The depth of the new peer's queue is the socket's `OptionWriteQLen`, or 16 if that is not to be had.
unfoldable pub add_endpoint : ℕ → Option ℕ → Star → Star
add_endpoint id write_q_len x = record x {
  eps = insert id (make (elim write_q_len [ none ↦ 16 | some n ↦ n ])) x.eps;
}

unfoldable pub remove_endpoint : ℕ → Star → Star × Option (Chan Message)
remove_endpoint id x = elim (lookup id x.eps) [
  | none ↦ (x, none)
  | some q ↦ (record x { eps = delete id x.eps }, some (close q))
]

unfoldable pub send_hook : Star → Message → Star × Message × Bool
send_hook x m =
    (x, if x.raw then m else record m { header = append m.header (0 ∷ 0 ∷ 0 ∷ 0 ∷ []) }, true)

set_ttl : Option ℤ → Star → Star × Option Error
set_ttl none x = (x, some bad_value)
set_ttl (some t) x =
    if ltb_ℤ t (pos 1) || ltb_ℤ (pos 255) t
    then (x, some bad_value)
    else (record x { ttl = pos_part t }, none)

-- `x.raw, ok = v.(bool)`: the assignment is made also where the assertion fails.
unfoldable pub set_option : OptionName → Value → Star → Star × Option Error
unfolding set_ttl
set_option OptionName.raw v x = (
  record x { raw = or_zero false (as_bool v) },
  elim (as_bool v) [ none ↦ some bad_value | some b ↦ none ],
)
set_option OptionName.ttl v x = set_ttl (as_int v) x
set_option _ v x = (x, some bad_option)

unfoldable pub get_option : OptionName → Star → Result Value
get_option OptionName.raw x = ok (bool x.raw)
get_option OptionName.ttl x = ok (int (pos x.ttl))
get_option _ x = err bad_option
