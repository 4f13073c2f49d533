-- ===== src/Compat/Endpoints.antt =====
-- compat/compat.go: addresses, and the sockets of one protocol, as far as they do more than name it.
use mangos_v.Prelude.{◌≡◌, refl, Option, none, some, []}
use mangos_v.Prelude.Bytes.{Bytes}
use mangos_v.Prelude.Int.{ℤ}
use mangos_v.Errors.{Error, Result, err, ok}
use mangos_v.Options.{OptionName, Value, as_duration}
use mangos_v.Core.{Operations, Socket}
use mangos_v.Core.Addresses.{Sites, dial_options, listen_options}
use mangos_v.Core.Surveys.{surveyor_operations}
use mangos_v.Surveyor.{Surveyor}
use mangos_v.Core.Options as Own
use mangos_v.Surveyor

-- An `Endpoint`, which is its address, or an error.
abbrev endpoint {ℓ} : {A : Type ℓ} → Bytes → A × Option Error → A × Result Bytes
endpoint addr (w, none) = (w, ok addr)
endpoint addr (w, some e) = (w, err e)

abbrev connected {ℓ} : {A : Type ℓ} {B : Type 0} → Bytes → A × Result B → A × Result Bytes
connected addr (w, ok d) = (w, ok addr)
connected addr (w, err e) = (w, err e)

module _ {S D L : Type 0} where
  -- `Bind` and `Connect`.
  unfoldable pub bind : Bytes → Sites S D L → Sites S D L × Result Bytes
  unfolding listen_options
  bind addr w = endpoint addr (listen_options addr [] w)

  unfoldable pub connect : Bytes → Sites S D L → Sites S D L × Result Bytes
  unfolding dial_options
  connect addr w = connected addr (dial_options addr [] w)

-- `Subscribe` and `Unsubscribe` of a SUB socket.
module _ {S : Type 0} (P : Operations S) where
  unfoldable pub subscribe : Bytes → Socket S → Socket S × Own.Outcome
  unfolding Own.set_option
  subscribe topic s = Own.set_option P OptionName.subscribe (Value.string topic) s

  unfoldable pub unsubscribe : Bytes → Socket S → Socket S × Own.Outcome
  unfolding Own.set_option
  unsubscribe topic s = Own.set_option P OptionName.unsubscribe (Value.string topic) s

-- `Deadline` of a SURVEYOR socket: `none` is a failing type assertion.
abbrev deadline_of : Result Value → Option (Result ℤ)
deadline_of (err e) = some (err e)
deadline_of (ok v) = elim (as_duration v) [ none ↦ none | some d ↦ some (ok d) ]

unfoldable pub deadline : Socket Surveyor → Option (Result ℤ)
unfolding Own.get_option
deadline s = deadline_of (Own.get_option surveyor_operations OptionName.survey_time s)

unfoldable pub set_deadline : ℤ → Socket Surveyor → Socket Surveyor × Own.Outcome
unfolding Own.set_option
set_deadline d s = Own.set_option surveyor_operations OptionName.survey_time (Value.duration d) s

-- What `SetDeadline` sets is what `Deadline` gives, without an error.
pub deadline-set_deadline :
    (d : ℤ) (s : Socket Surveyor)
    → let (s', outcome) = set_deadline d s in (outcome ≡ Own.done) × (deadline s' ≡ some (ok d))
unfolding set_deadline deadline Own.set_option Own.get_option Surveyor.set_option
    Surveyor.get_option
deadline-set_deadline d s = (refl, refl)
