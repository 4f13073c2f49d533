-- ===== src/Sub.antt =====
-- protocol/sub/sub.go: the subscribing side of publish/subscribe.
pub mod Subscriptions
use mangos_v.Prelude.{
  Bool, true, false, ◌&&◌, not, Option, none, some, List, [], ◌∷◌, ◌++◌, ◌==◌, if◌then◌else◌,
}
use mangos_v.Message.{Message}
use mangos_v.Options.{bool, string, byte_slice, OptionName, Value, as_bool, or_zero}
use mangos_v.Protocol.{
  up, closing, ProtocolSocket, Ready, Received, deliver, no_room, set_send_error, skip, stop,
}
use mangos_v.Prelude.Bytes.{Bytes}
use mangos_v.Prelude.Strings.{has_prefix, equal}
use mangos_v.Errors.{Error, Result, bad_option, bad_value, err, ok, proto_op}

pub record Sub : Type 0 where
  pub sock : ProtocolSocket
  pub subs : List Bytes
  pub raw : Bool

unfoldable pub init : ProtocolSocket → Sub
unfolding set_send_error
init sock = record { sock = set_send_error (some proto_op) sock; subs = []; raw = false }

-- The loop of `receiver` over the subscriptions.
unfoldable pub matched : List Bytes → Bytes → Bool
matched [] body = false
matched (sub ∷ subs) body =
    let rest = matched subs body in if has_prefix body sub then true else rest

-- `receiver`: one message.
unfoldable pub receiver : Sub → Ready → Message → Received
receiver s ready m =
    if not (matched s.subs m.body)
    then skip
    else elim ready [ up ↦ deliver m | closing ↦ stop | no_room ↦ skip ]

-- The loop of `OptionSubscribe`: whether the subscription is there already.
unfoldable pub present : Bytes → List Bytes → Bool
present vb [] = false
present vb (sub ∷ subs) = let rest = present vb subs in if equal sub vb then true else rest

-- `subs[len(subs)-1]` and `subs[:len(subs)-1]` of `x ∷ xs`.
unfoldable pub last_of : Bytes → List Bytes → Bytes
last_of x [] = x
last_of x (y ∷ rest) = last_of y rest

unfoldable pub shorten : Bytes → List Bytes → List Bytes
shorten x [] = []
shorten x (y ∷ rest) = x ∷ shorten y rest

-- The loop of `OptionUnsubscribe`: the first subscription that equals `vb` gives its place to the
-- last one; `none` if there is none.
unfoldable pub unsubscribe : Bytes → List Bytes → Option (List Bytes)
unfolding last_of shorten
unsubscribe vb [] = none
unsubscribe vb (sub ∷ subs) =
    let later = unsubscribe vb subs in
    if equal sub vb
    then some (elim subs [ [] ↦ [] | y ∷ rest ↦ last_of y rest ∷ shorten y rest ])
    else elim later [ none ↦ none | some subs' ↦ some (sub ∷ subs') ]

-- `[]byte` and `string` values are taken.
abbrev pub as_bytes : Value → Option Bytes
as_bytes (byte_slice b) = some b
as_bytes (string b) = some b
as_bytes _ = none

unfoldable pub set_option : OptionName → Value → Sub → Sub × Option Error
set_option OptionName.raw v s = (
  record s { raw = or_zero false (as_bool v) },
  elim (as_bool v) [ none ↦ some bad_value | some b ↦ none ],
)
set_option OptionName.subscribe v s = elim (as_bytes v) [
  | none ↦ (s, some bad_value)
  | some vb ↦ (if present vb s.subs then s else record s { subs = s.subs ++ (vb ∷ []) }, none)
]
set_option OptionName.unsubscribe v s = elim (as_bytes v) [
  | none ↦ (s, some bad_value)
  | some vb ↦ elim (unsubscribe vb s.subs) [
    | none ↦ (s, some bad_value)
    | some subs' ↦ (record s { subs = subs' }, none)
  ]
]
set_option _ v s = (s, some bad_option)

unfoldable pub get_option : OptionName → Sub → Result Value
get_option OptionName.raw s = ok (bool s.raw)
get_option _ s = err bad_option
