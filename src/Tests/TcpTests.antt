-- ===== src/Tests/TcpTests.antt =====
-- TCP dialers at concrete inputs; the network's connections keep the settings that they are given.
use mangos_v.Prelude.{ℕ, ◌≡◌, refl, true, false, none, some, Bool, List, [], ◌∷◌}
use mangos_v.Prelude.Bytes.{Bytes}
use mangos_v.Prelude.Int.{ℤ, pos, negsuc}
use mangos_v.Errors.{ok}
use mangos_v.Options.{OptionName, Value}
use mangos_v.Tcp.{Net, TcpDialer, TcpOptions, config_tcp, new_options, of_result, set}
use mangos_v.Tcp.Settings.{after_sets}
use mangos_v.Core.Addresses
use mangos_v.Options
use mangos_v.Tcp

pub record Line : Type 0 where
  pub flags : List Bool
  pub times : List ℤ

abbrev fresh_line : Line
fresh_line = record { flags = []; times = [] }

abbrev net : Net Bytes Line ℕ
net = record {
  resolve = λ addr. ok addr;
  dial_tcp = λ a. ok fresh_line;
  listen_tcp = λ a. ok 1;
  accept_tcp = λ l. ok fresh_line;
  set_no_delay = λ b c. ok (record c { flags = b ∷ c.flags });
  set_keep_alive = λ b c. ok (record c { flags = b ∷ c.flags });
  set_keep_alive_period = λ d c. ok (record c { times = d ∷ c.times });
  sent_by_peer = λ c. [];
}

abbrev changes : List (OptionName × Value)
changes =
    (Options.no_delay, Value.bool false)
    ∷ (Options.keep_alive_time, Value.duration (pos 9))
    ∷ (Options.keep_alive_time, Value.duration (negsuc 0))
    ∷ (Options.keep_alive, Value.int (pos 1))
    ∷ []

-- The connection's settings, the latest first.
configured_line :
    config_tcp net (after_sets changes new_options) fresh_line
    ≡ Tcp.configured (record { flags = true ∷ false ∷ []; times = pos 9 ∷ [] })
unfolding config_tcp new_options set
configured_line = refl

-- "tcp://9".
abbrev nine : Bytes
nine = 116 ∷ 99 ∷ 112 ∷ 58 ∷ 47 ∷ 47 ∷ 57 ∷ []

abbrev dialer_nine : TcpDialer
dialer_nine = record {
  addr = 57 ∷ [];
  opts = record {
    no_delay = some (Value.bool true);
    keep_alive = some (Value.bool false);
    keep_alive_time = none;
  };
}
