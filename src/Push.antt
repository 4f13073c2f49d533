-- ===== src/Push.antt =====
-- protocol/push/push.go: the sending side of a pipeline. Each endpoint's sender takes messages from
-- the socket's one send queue, so a message goes to one peer.
use mangos_v.Prelude.{
  ℕ, ◌≡◌, refl, ◌∙◌, Bool, true, false, not, Option, none, some, List, [], ◌∷◌, arith, ◌==◌,
  if◌then◌else◌,
}
use mangos_v.Options.{bool, OptionName, Value, as_bool, or_zero}
use mangos_v.Errors.{Error, Result, bad_option, bad_value, err, ok, proto_op}
use mangos_v.Protocol.{ProtocolSocket, set_recv_error}
use mangos_v.Prelude.Table.{Table, delete, insert, lookup, lookup-delete, lookup-insert}
use mangos_v.Waiter.{Waiter, add}
use mangos_v.Waiter

pub record Push : Type 0 where
  pub sock : ProtocolSocket
  pub raw : Bool
  pub w : Waiter
  pub eps : Table Bool  -- of each endpoint, whether its `cq` is closed

unfoldable pub init : ProtocolSocket → Push
unfolding set_recv_error Waiter.init
init sock = record {
  sock = set_recv_error (some proto_op) sock;
  raw = false;
  w = Waiter.init;
  eps = [];
}

-- `sender`, after it took a message: whether it goes on. `sent` tells whether the endpoint's
-- `SendMsg` succeeded; if not, the message is freed.
unfoldable pub sender : Bool → Bool
sender sent = sent

unfoldable pub add_endpoint : ℕ → Push → Push
unfolding Waiter.add
add_endpoint id x = record x { eps = insert id false x.eps; w = Waiter.add x.w }

-- With the state, the closed `cq` of the endpoint's sender, if the endpoint was known.
unfoldable pub remove_endpoint : ℕ → Push → Push × Option Bool
remove_endpoint id x = (
  record x { eps = delete id x.eps },
  elim (lookup id x.eps) [ none ↦ none | some q ↦ some true ],
)

-- `x.raw, ok = v.(bool)`: the assignment is made also where the assertion fails.
unfoldable pub set_option : OptionName → Value → Push → Push × Option Error
set_option OptionName.raw v x = (
  record x { raw = or_zero false (as_bool v) },
  elim (as_bool v) [ none ↦ some bad_value | some b ↦ none ],
)
set_option _ v x = (x, some bad_option)

unfoldable pub get_option : OptionName → Push → Result Value
get_option OptionName.raw x = ok (bool x.raw)
get_option _ x = err bad_option

-- The calls that change a `*push`.
pub data Call : Type 0 where
  adds removes : ℕ → Call
  sets : OptionName → Value → Call

unfoldable pub step : Push → Call → Push
step x (adds id) = add_endpoint id x
step x (removes id) = (remove_endpoint id x).0
step x (sets name v) = (set_option name v x).0

unfoldable pub run : Push → List Call → Push
run x [] = x
run x (c ∷ cs) = run (step x c) cs

-- The endpoints that are attached after these calls, in terms of the calls alone.
abbrev pub attached : ℕ → Bool → List Call → Bool
attached id b [] = b
attached id b (adds j ∷ cs) = attached id (if j == id then true else b) cs
attached id b (removes j ∷ cs) = attached id (if j == id then false else b) cs
attached id b (sets name v ∷ cs) = attached id b cs

step-sock : (x : Push) (c : Call) → (step x c).sock ≡ x.sock
unfolding step add_endpoint remove_endpoint set_option
step-sock x (adds id) = refl
step-sock x (removes id) = refl
step-sock x (sets OptionName.raw v) = refl
step-sock x (sets _ v) = refl

step-sets : (x : Push) (name : OptionName) (v : Value) → (step x (sets name v)).eps ≡ x.eps
unfolding step set_option
step-sets x OptionName.raw v = refl
step-sets x _ v = refl

-- Whether a table has the key, with its flag down.
abbrev pub is_open : Option Bool → Bool
is_open none = false
is_open (some closed) = not closed

run-lookup :
    (x : Push) (id : ℕ) (cs : List Call)
    → is_open (lookup id (run x cs).eps) ≡ attached id (is_open (lookup id x.eps)) cs
unfolding run step add_endpoint remove_endpoint
run-lookup x id [] = refl
run-lookup x id (adds j ∷ cs) =
    rw (run-lookup (add_endpoint j x) id cs, lookup-insert j id false x.eps) (ground arith)
run-lookup x id (removes j ∷ cs) =
    rw (run-lookup (remove_endpoint j x).0 id cs, lookup-delete j id x.eps) (ground arith)
run-lookup x id (sets name v ∷ cs) =
    rw (run-lookup (step x (sets name v)) id cs, step-sets x name v) refl

run-sock : (x : Push) (cs : List Call) → (run x cs).sock ≡ x.sock
unfolding run
run-sock x [] = refl
run-sock x (c ∷ cs) = run-sock (step x c) cs ∙ step-sock x c

-- After any history of a new socket, the endpoints with a running sender are those added and not
-- removed since, and `Recv` fails with a protocol operation error.
pub run-attached :
    (sock : ProtocolSocket) (id : ℕ) (cs : List Call)
    → (is_open (lookup id (run (init sock) cs).eps) ≡ attached id false cs)
      × ((run (init sock) cs).sock.recverr ≡ some proto_op)
unfolding init set_recv_error lookup
run-attached sock id cs = (run-lookup (init sock) id cs, rw (run-sock (init sock) cs) refl)
