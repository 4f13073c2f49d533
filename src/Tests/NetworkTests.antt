-- ===== src/Tests/NetworkTests.antt =====
-- The TLS and IPC transports, and the wait for a queue, at concrete inputs.
use mangos_v.Prelude.{ℕ, ◌≤◌, ◌≡◌, refl, true, Bool, Option, none, some, List, [], ◌∷◌, In, arith}
use mangos_v.Prelude.Int.{pos}
use mangos_v.Errors.{Result, err, ok, bad_value}
use mangos_v.Options.{OptionName, Value}
use mangos_v.Tls.{TlsNet}
use mangos_v.Drain.{drain_channel, drain_channel-ends}
use mangos_v.Ipc.Windows.{PipeConfig, first_config, input_buffer_size, set_option}
use mangos_v.Tcp

-- Connections and sockets are numbers, and a handshake needs a configuration.
abbrev needs_config : Option ℕ → ℕ → Result ℕ
needs_config none c = err bad_value
needs_config (some n) c = ok c

abbrev tls_net : TlsNet ℕ ℕ ℕ ℕ
tls_net = record {
  net = record {
    resolve = λ addr. ok 0;
    dial_tcp = λ a. ok a;
    listen_tcp = λ a. ok a;
    accept_tcp = λ l. ok l;
    set_no_delay = λ b c. ok c;
    set_keep_alive = λ b c. ok c;
    set_keep_alive_period = λ d c. ok c;
    sent_by_peer = λ c. [];
  };
  client = needs_config;
  server = needs_config;
  sent_by_peer = λ x. [];
}

abbrev with_certificate : List (OptionName × Value)
with_certificate = (OptionName.tls_config, Value.tls (some 1)) ∷ []

abbrev without : List (OptionName × Value)
without =
    (OptionName.tls_config, Value.tls none)
    ∷ (OptionName.keep_alive_time, Value.duration (pos 9))
    ∷ []

abbrev seen : List (ℕ × ℕ)
seen = (2, 0) ∷ (1, 15) ∷ (0, 17) ∷ []

-- The queue empties while the call sleeps.
drain_channel-ends_example :
    (b : Bool) × (drain_channel 15 seen ≡ some b)
    × ((now : ℕ) → In (0, now) seen → now ≤ 15 → b ≡ true)
drain_channel-ends_example =
    drain_channel-ends 0 15 2 ((1, 15) ∷ (0, 17) ∷ [])
      (omega arith, omega arith, (omega arith, omega arith, tt)) (omega arith)

abbrev larger : PipeConfig
larger = record first_config { input = pos 8192 }

taken :
    set_option (OptionName.unnamed input_buffer_size) (Value.int32 (pos 8192)) first_config
    ≡ ok larger
unfolding set_option
taken = refl
