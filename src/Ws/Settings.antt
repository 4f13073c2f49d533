-- ===== src/Ws/Settings.antt =====
-- transport/ws/ws.go: the options of a dialer or a listener of the WebSocket transport.
use mangos_v.Prelude.{ℕ, Option, none, some, if◌then◌else◌, ◌==◌}
use mangos_v.Errors.{Result, bad_option, bad_value, err, ok}
use mangos_v.Options.{OptionName, Value, as_bool, as_tls}

-- The names of the transport's own options.
abbrev pub websocket_mux : OptionName
websocket_mux = OptionName.unnamed 1

abbrev pub websocket_handler : OptionName
websocket_handler = OptionName.unnamed 2

abbrev pub websocket_check_origin : OptionName
websocket_check_origin = OptionName.unnamed 3

-- The map `options`; these are the only names that it ever holds.
pub record WsOptions : Type 0 where
  pub no_delay : Option Value
  pub keep_alive : Option Value
  pub tls_config : Option Value
  pub check_origin : Option Value

abbrev pub or_bad_option : Option Value → Result Value
or_bad_option none = err bad_option
or_bad_option (some v) = ok v

abbrev get_unnamed : ℕ → WsOptions → Result Value
get_unnamed n o = if n == 3 then or_bad_option o.check_origin else err bad_option

unfoldable pub get : OptionName → WsOptions → Result Value
get OptionName.no_delay o = or_bad_option o.no_delay
get OptionName.keep_alive o = or_bad_option o.keep_alive
get OptionName.tls_config o = or_bad_option o.tls_config
get (OptionName.unnamed n) o = get_unnamed n o
get _ o = err bad_option

abbrev or_bad_value {ℓ} : {A : Type ℓ} → Option A → (A → WsOptions) → Result WsOptions
or_bad_value none f = err bad_value
or_bad_value (some a) f = ok (f a)

abbrev pub set_unnamed : ℕ → Value → WsOptions → Result WsOptions
set_unnamed n v o =
    if n == 3
    then or_bad_value (as_bool v) (λ b. record o { check_origin = some (Value.bool b) })
    else err bad_option

-- `set`: the new map; an error leaves the map as it is.
unfoldable pub set : OptionName → Value → WsOptions → Result WsOptions
set OptionName.no_delay v o =
    or_bad_value (as_bool v) (λ b. record o { no_delay = some (Value.bool b) })
set OptionName.keep_alive v o =
    or_bad_value (as_bool v) (λ b. record o { keep_alive = some (Value.bool b) })
set OptionName.tls_config v o =
    or_bad_value (as_tls v) (λ c. record o { tls_config = some (Value.tls c) })
set (OptionName.unnamed n) v o = set_unnamed n v o
set _ v o = err bad_option

abbrev pub empty_options : WsOptions
empty_options = record {
  no_delay = none;
  keep_alive = none;
  tls_config = none;
  check_origin = none;
}
