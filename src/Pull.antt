-- ===== src/Pull.antt =====
-- protocol/pull/pull.go: the receiving side of a pipeline.
use mangos_v.Prelude.{Bool, false, Option, none, some}
use mangos_v.Options.{bool, OptionName, Value, as_bool, or_zero}
use mangos_v.Protocol.{closing, ProtocolSocket, Ready, Received, deliver, set_send_error, stop}
use mangos_v.Errors.{Error, Result, bad_option, bad_value, err, ok, proto_op}
use mangos_v.Message.{Message}

pub record Pull : Type 0 where
  pub sock : ProtocolSocket
  pub raw : Bool

unfoldable pub init : ProtocolSocket → Pull
unfolding set_send_error
init sock = record { sock = set_send_error (some proto_op) sock; raw = false }

-- `receiver`: one message. There is no default case.
unfoldable pub receiver : Ready → Message → Received
receiver ready m = elim ready [ closing ↦ stop | _ ↦ deliver m ]

unfoldable pub send_hook : Pull → Message → Pull × Message × Bool
send_hook x m = (x, m, false)

-- `x.raw, ok = v.(bool)`: the assignment is made also where the assertion fails.
unfoldable pub set_option : OptionName → Value → Pull → Pull × Option Error
set_option OptionName.raw v x = (
  record x { raw = or_zero false (as_bool v) },
  elim (as_bool v) [ none ↦ some bad_value | some b ↦ none ],
)
set_option _ v x = (x, some bad_option)

unfoldable pub get_option : OptionName → Pull → Result Value
get_option OptionName.raw x = ok (bool x.raw)
get_option _ x = err bad_option
