-- ===== src/Options.antt =====
-- options.go: the option names, and the values that `interface{}` carries to `SetOption`.
-- A type assertion is a partial function from values.
use mangos_v.Prelude.{ℕ, Bool, Option, none, some}
use mangos_v.Prelude.Bytes.{Bytes}
use mangos_v.Prelude.Int.{ℤ}

pub data OptionName : Type 0 where
  raw recv_deadline send_deadline retry_time subscribe unsubscribe survey_time : OptionName
  tls_config write_q_len read_q_len keep_alive keep_alive_time no_delay linger : OptionName
  ttl max_recv_size reconnect_time max_reconnect_time best_effort : OptionName
  -- Any other string.
  unnamed : ℕ → OptionName

-- A duration counts nanoseconds.
pub data Value : Type 0 where
  bool : Bool → Value
  int int32 : ℤ → Value
  duration : ℤ → Value
  byte_slice : Bytes → Value
  string : Bytes → Value
  -- A `*tls.Config`: nil, or a configuration with so many certificates.
  tls : Option ℕ → Value
  foreign : ℕ → Value

-- `value.(bool)`, `value.(int)` and `value.(time.Duration)` in their two-value forms.
abbrev pub as_bool : Value → Option Bool
as_bool (bool b) = some b
as_bool _ = none

abbrev pub as_int : Value → Option ℤ
as_int (int i) = some i
as_int _ = none

abbrev pub as_duration : Value → Option ℤ
as_duration (duration d) = some d
as_duration _ = none

-- The value that `x, ok = v.(T)` stores: on a mismatch, the zero value of `T`.
abbrev pub or_zero {ℓ} : {A : Type ℓ} → A → Option A → A
or_zero zero_value none = zero_value
or_zero zero_value (some a) = a

abbrev pub as_tls : Value → Option (Option ℕ)
as_tls (tls c) = some c
as_tls _ = none

abbrev pub as_int32 : Value → Option ℤ
as_int32 (int32 i) = some i
as_int32 _ = none

abbrev pub as_string : Value → Option Bytes
as_string (string s) = some s
as_string _ = none
