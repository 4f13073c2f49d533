-- ===== src/Bus.antt =====
-- protocol/bus/bus.go: BUS, where each message goes to all peers but the one that it came from.
pub mod Laws
use mangos_v.Prelude.{
  ℕ, Bool, true, false, ◌&&◌, not, Option, none, some, [], leb, ◌==◌, if◌then◌else◌, length,
}
use mangos_v.Message.{Message, Counted, release}
use mangos_v.Chan.{Chan, close, close_all, make}
use mangos_v.Options.{bool, OptionName, Value, as_bool, or_zero}
use mangos_v.Protocol.{
  up, closing, ProtocolSocket, Ready, Received, deliver, no_room, panicked, skip, stop,
}
use mangos_v.Errors.{Error, Result, bad_option, bad_value, err, ok}
use mangos_v.Prelude.Table.{Table, delete, insert, lookup}
use mangos_v.Waiter.{Waiter, add}
use mangos_v.Prelude.Bytes.{append, bytes, get_u32, put_u32, skip4}
use mangos_v.Fan.{fan_out}
use mangos_v.Waiter

pub record Bus : Type 0 where
  pub sock : ProtocolSocket
  pub peers : Table (Chan Message)
  pub raw : Bool
  pub w : Waiter

unfoldable pub init : ProtocolSocket → Bus
unfolding Waiter.init Waiter.add
init sock = record { sock = sock; peers = []; raw = false; w = Waiter.add Waiter.init }

-- `Shutdown` after its waits: the peers that it took, with their queues closed.
unfoldable pub shutdown : Bus → Bus × Table (Chan Message)
shutdown x = (record x { peers = [] }, close_all x.peers)

unfoldable pub broadcast : Bus → Counted → ℕ → Bus × Counted × Bool
broadcast x m from =
    let f = fan_out (λ id. from == id) m x.peers in
    (record x { peers = f.peers }, f.message, f.panicked)

-- The pipe that a message to be sent came from, and the message without that word. No pipe has the
-- identifier 0, which stands for none.
unfoldable pub origin : Message → ℕ × Message
origin m =
    if leb 4 (length (bytes m.header))
    then (get_u32 (bytes m.header), record m { header = skip4 m.header })
    else (0, m)

-- `sender`: one message of the send queue.
unfoldable pub sender : Bus → Counted → Bus × Counted × Bool
unfolding origin broadcast
sender x m =
    let (from, m') = origin m.msg in
    let (x', sent, bad) = broadcast x (record m { msg = m' }) from in
    (x', if bad then sent else release sent, bad)

-- `receiver`: one message of the endpoint `id`.
unfoldable pub receiver : ℕ → Ready → Message → Received
receiver id ready m = elim ready [
  | up ↦ deliver (record m { header = append m.header (put_u32 id) })
  | closing ↦ stop
  | no_room ↦ skip
]

-- The depth of the new peer's queue is the socket's `OptionWriteQLen`, or 16 if that is not to be had.
unfoldable pub add_endpoint : ℕ → Option ℕ → Bus → Bus
add_endpoint id write_q_len x = record x {
  peers = insert id (make (elim write_q_len [ none ↦ 16 | some n ↦ n ])) x.peers;
}

unfoldable pub remove_endpoint : ℕ → Bus → Bus × Option (Chan Message)
remove_endpoint id x = elim (lookup id x.peers) [
  | none ↦ (x, none)
  | some q ↦ (record x { peers = delete id x.peers }, some (close q))
]

unfoldable pub recv_hook : Bus → Message → Bus × Message × Bool
recv_hook x m = (
  x,
  if not x.raw && leb 4 (length (bytes m.header)) then record m { header = skip4 m.header } else m,
  true,
)

-- `x.raw, ok = v.(bool)`: the assignment is made also where the assertion fails.
unfoldable pub set_option : OptionName → Value → Bus → Bus × Option Error
set_option OptionName.raw v x = (
  record x { raw = or_zero false (as_bool v) },
  elim (as_bool v) [ none ↦ some bad_value | some b ↦ none ],
)
set_option _ v x = (x, some bad_option)

unfoldable pub get_option : OptionName → Bus → Result Value
get_option OptionName.raw x = ok (bool x.raw)
get_option _ x = err bad_option
