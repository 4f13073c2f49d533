-- ===== src/Pub.antt =====
-- protocol/pub/pub.go: the publishing side of publish/subscribe. A peer is the queue of its bottom
-- sender; the top sender's loop over the peers is the one of `Fan`.
pub mod Laws
use mangos_v.Prelude.{ℕ, Bool, false, Option, none, some, [], if◌then◌else◌}
use mangos_v.Message.{Message, Counted, release}
use mangos_v.Chan.{Chan, close, close_all, make}
use mangos_v.Options.{bool, OptionName, Value, as_bool, or_zero}
use mangos_v.Errors.{Error, Result, bad_option, bad_value, err, ok, proto_op}
use mangos_v.Protocol.{ProtocolSocket, panicked, set_recv_error}
use mangos_v.Prelude.Table.{Table, delete, insert, lookup}
use mangos_v.Waiter.{Waiter, add}
use mangos_v.Fan.{everybody, fan_out}
use mangos_v.Waiter

pub record Pub : Type 0 where
  pub sock : ProtocolSocket
  pub eps : Table (Chan Message)
  pub raw : Bool
  pub w : Waiter

unfoldable pub init : ProtocolSocket → Pub
unfolding set_recv_error Waiter.init Waiter.add
init sock = record {
  sock = set_recv_error (some proto_op) sock;
  eps = [];
  raw = false;
  w = Waiter.add Waiter.init;
}

-- `Shutdown` after its waits: the peers that it took, with their queues closed.
unfoldable pub shutdown : Pub → Pub × Table (Chan Message)
shutdown p = (record p { eps = [] }, close_all p.eps)

-- `sender`: one message of the send queue. The sender's own reference goes at the end.
unfoldable pub sender : Pub → Counted → Pub × Counted × Bool
sender p m =
    let f = fan_out everybody m p.eps in
    (record p { eps = f.peers }, if f.panicked then f.message else release f.message, f.panicked)

-- The depth of the new peer's queue is the socket's `OptionWriteQLen`, or 16 if that is not to be had.
unfoldable pub add_endpoint : ℕ → Option ℕ → Pub → Pub
add_endpoint id write_q_len p = record p {
  eps = insert id (make (elim write_q_len [ none ↦ 16 | some n ↦ n ])) p.eps;
}

unfoldable pub remove_endpoint : ℕ → Pub → Pub × Option (Chan Message)
remove_endpoint id p = (
  record p { eps = delete id p.eps },
  elim (lookup id p.eps) [ none ↦ none | some q ↦ some (close q) ],
)

-- `p.raw, ok = v.(bool)`: the assignment is made also where the assertion fails.
unfoldable pub set_option : OptionName → Value → Pub → Pub × Option Error
set_option OptionName.raw v p = (
  record p { raw = or_zero false (as_bool v) },
  elim (as_bool v) [ none ↦ some bad_value | some b ↦ none ],
)
set_option _ v p = (p, some bad_option)

unfoldable pub get_option : OptionName → Pub → Result Value
get_option OptionName.raw p = ok (bool p.raw)
get_option _ p = err bad_option
