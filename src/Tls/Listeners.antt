-- ===== src/Tls/Listeners.antt =====
-- The connections that a TLS listener takes, with the options that its socket sets.
use mangos_v.Prelude.{ℕ, Bool, Option, some, List, [], ◌∷◌}
use mangos_v.Prelude.Int.{ℤ}
use mangos_v.Errors.{Result, err, ok}
use mangos_v.Options.{OptionName, Value}
use mangos_v.Tcp.{config_tcp}
use mangos_v.Tcp.Settings.{holding}
use mangos_v.Tls.{TlsListener, TlsOptions, listener_option}
use mangos_v.Tcp

-- The map that holds these values.
abbrev holding_tls : Bool → Bool → Option ℤ → Option ℕ → TlsOptions
holding_tls d k p c = record { tcp = holding d k p; tls_config = some (Value.tls c) }

-- The configuration after a call of `SetOption`, and after several.
abbrev pub then_config : OptionName → Value → Option ℕ → Option ℕ
then_config OptionName.tls_config (Value.tls c') c = c'
then_config _ _ c = c

abbrev pub last_config : List (OptionName × Value) → Option ℕ → Option ℕ
last_config [] c = c
last_config ((name, v) ∷ more) c = last_config more (then_config name v c)

-- The calls of `SetOption` on a listener, whatever their results.
abbrev pub after_sets :
    {A L : Type 0} → List (OptionName × Value) → TlsListener A L → TlsListener A L
after_sets [] l = l
after_sets ((name, v) ∷ more) l = after_sets more (listener_option name v l).0

abbrev kept : TlsOptions → Result TlsOptions → TlsOptions
kept o (ok o') = o'
kept o (err e) = o
