-- ===== src/Ipc/Windows.antt =====
-- transport/ipc/ipc_windows.go: the transport over named pipes. The calls of the package winio are the
-- record `PipeNet`.
pub mod Values
use mangos_v.Prelude.{
  ◌≡◌, refl, false, Bool, Option, none, some, List, [], ◌∷◌, ◌++◌, if◌then◌else◌, ◌==◌, ℕ,
}
use mangos_v.Prelude.Bytes.{Bytes}
use mangos_v.Prelude.Int.{ℤ, pos}
use mangos_v.Errors.{or_else, closed, Error, Result, bad_option, bad_value, err, ok}
use mangos_v.Options.{OptionName, Value, as_int32, as_string}
use mangos_v.Peers.{Kind}
use mangos_v.Conn.Handshake.{Shaken, handshake}
use mangos_v.Core.Addresses.{strip_scheme}

-- The names of the options of a listener.
abbrev pub security_descriptor : ℕ
security_descriptor = 4

abbrev pub input_buffer_size : ℕ
input_buffer_size = 5

abbrev pub output_buffer_size : ℕ
output_buffer_size = 6

-- `winio.PipeConfig`.
pub record PipeConfig : Type 0 where
  pub descriptor : Bytes
  pub message_mode : Bool
  pub input : ℤ
  pub output : ℤ

pub record PipeNet (C L : Type 0) : Type 0 where
  pub dial_pipe : Bytes → Result C
  pub listen_pipe : Bytes → PipeConfig → Result L
  pub accept_pipe : L → Result C
  pub sent_by_peer : C → Bytes

pub record PipeListener (L : Type 0) : Type 0 where
  pub path : Bytes
  pub listening : Option L
  pub config : PipeConfig

-- What precedes the path of a pipe.
abbrev pub pipe_prefix : Bytes
pipe_prefix = b'\\' ∷ b'\\' ∷ b'.' ∷ b'\\' ∷ b'p' ∷ b'i' ∷ b'p' ∷ b'e' ∷ b'\\' ∷ []

abbrev or_bad_value {ℓ} : {A : Type ℓ} → Option A → (A → PipeConfig) → Result PipeConfig
or_bad_value none f = err bad_value
or_bad_value (some a) f = ok (f a)

abbrev pub set_unnamed : ℕ → Value → PipeConfig → Result PipeConfig
set_unnamed n v c =
    if n == input_buffer_size
    then or_bad_value (as_int32 v) (λ i. record c { input = i })
    else if n == output_buffer_size
    then or_bad_value (as_int32 v) (λ i. record c { output = i })
    else if n == security_descriptor
    then or_bad_value (as_string v) (λ s. record c { descriptor = s })
    else err bad_option

-- `SetOption` of a listener: the new configuration; an error leaves it as it is.
unfoldable pub set_option : OptionName → Value → PipeConfig → Result PipeConfig
set_option (OptionName.unnamed n) v c = set_unnamed n v c
set_option _ v c = err bad_option

abbrev pub get_unnamed : ℕ → PipeConfig → Result Value
get_unnamed n c =
    if n == input_buffer_size
    then ok (Value.int32 c.input)
    else if n == output_buffer_size
    then ok (Value.int32 c.output)
    else if n == security_descriptor
    then ok (Value.string c.descriptor)
    else err bad_option

unfoldable pub get_option : OptionName → PipeConfig → Result Value
get_option (OptionName.unnamed n) c = get_unnamed n c
get_option _ c = err bad_option

-- The configuration of a new listener.
unfoldable pub first_config : PipeConfig
first_config = record { descriptor = []; message_mode = false; input = pos 4096; output = pos 4096 }

module _ {C L : Type 0} (net : PipeNet C L) where
  abbrev pub reach : Kind → Result Value → Result C → Result Shaken
  reach k limit r = or_else r (λ c. ok (handshake k limit [] (net.sent_by_peer c)))

  -- `Dial` of a dialer with this path; a dialer has no options.
  unfoldable pub dial : Kind → Result Value → Bytes → Result Shaken
  dial k limit path = reach k limit (net.dial_pipe (pipe_prefix ++ path))

  unfoldable pub listen : PipeListener L → Result (PipeListener L)
  listen l =
      or_else (net.listen_pipe (pipe_prefix ++ l.path) l.config)
        (λ h. ok (record l { listening = some h }))

  -- `Accept` of an interface that is nil panics: no result.
  abbrev accept_on : Option L → Option (Result C)
  accept_on none = none
  accept_on (some h) = some (net.accept_pipe h)

  unfoldable pub accept : Kind → Result Value → PipeListener L → Option (Result Shaken)
  accept k limit l = elim (accept_on l.listening) [ none ↦ none | some r ↦ some (reach k limit r) ]

-- `NewListener` of the transport.
unfoldable pub make_listener : {L : Type 0} → Bytes → Bytes → Result (PipeListener L)
unfolding strip_scheme first_config
make_listener scheme addr =
    or_else (strip_scheme scheme addr)
      (λ rest. ok (record { path = rest; listening = none; config = first_config }))
