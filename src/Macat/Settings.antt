-- ===== src/Macat/Settings.antt =====
-- macat/macat.go: the global variables, and the functions that the command line's options call. What a
-- text is as an integer (`strconv.Atoi`), and what a file holds, come with the option.
use mangos_v.Prelude.{ℕ, Bool, true, false, Option, none, some, List, [], ◌∷◌, ◌++◌, if◌then◌else◌}
use mangos_v.Prelude.Bytes.{Bytes}
use mangos_v.Prelude.Int.{ℤ, pos, negsuc}
use mangos_v.Prelude.Strings.{index}
use mangos_v.Peers.{Kind}
use mangos_v.Core.Addresses.{mark}
use mangos_v.Macat.Output.{Format, set_format}

-- `root_cas` tells whether `tlscfg.RootCAs` is set; an empty file name is unset.
pub record Settings : Type 0 where
  pub kind : Option Kind
  pub dial_addrs : List Bytes
  pub listen_addrs : List Bytes
  pub subscriptions : List Bytes
  pub recv_timeout : ℤ
  pub send_timeout : ℤ
  pub send_interval : ℤ
  pub send_delay : ℤ
  pub send_data : Option Bytes
  pub print_format : Format
  pub cert_file : Bytes
  pub key_file : Bytes
  pub root_cas : Bool
  pub no_verify_tls : Bool

abbrev pub at_start : Settings
at_start = record {
  kind = none;
  dial_addrs = [];
  listen_addrs = [];
  subscriptions = [];
  recv_timeout = negsuc 0;
  send_timeout = negsuc 0;
  send_interval = negsuc 0;
  send_delay = pos 0;
  send_data = none;
  print_format = Format.unset;
  cert_file = [];
  key_file = [];
  root_cas = false;
  no_verify_tls = false;
}

-- What `setCaCert` finds: no file to read, one with no certificate in it, or certificates.
pub data CaFile : Type 0 where
  unreadable useless certificates : CaFile

-- An option of the command line, with its argument.
pub data Flag : Type 0 where
  socket_type : Kind → Flag
  bind connect bind_ipc connect_ipc bind_local connect_local subscribe : Bytes → Flag
  recv_timeout_flag send_timeout_flag send_delay_flag interval : Option ℤ → Flag
  format : Format → Flag
  send_text : Bytes → Flag
  send_file : Option Bytes → Flag
  cert key : Bytes → Flag
  cacert : CaFile → Flag
  insecure : Flag

-- "ipc://" and "tcp://127.0.0.1:".
abbrev ipc_prefix : Bytes
ipc_prefix = b'i' ∷ b'p' ∷ b'c' ∷ mark

abbrev local_prefix : Bytes
local_prefix =
    b't'
    ∷ b'c'
    ∷ b'p'
    ∷ (mark ++ b'1' ∷ b'2' ∷ b'7' ∷ b'.' ∷ b'0' ∷ b'.' ∷ b'0' ∷ b'.' ∷ b'1' ∷ b':' ∷ [])

abbrev is_empty : Bytes → Bool
is_empty [] = true
is_empty _ = false

-- `strings.Contains(addr, "://")`.
abbrev if_address : Option ℕ → Settings → Option Settings
if_address none s = none
if_address (some i) s = some s

unfoldable pub add_dial : Bytes → Settings → Option Settings
add_dial addr s = if_address (index addr mark) (record s { dial_addrs = s.dial_addrs ++ addr ∷ [] })

unfoldable pub add_listen : Bytes → Settings → Option Settings
add_listen addr s =
    if_address (index addr mark) (record s { listen_addrs = s.listen_addrs ++ addr ∷ [] })

unfoldable pub set_socket : Option Kind → Kind → Settings → Option Settings
set_socket none k s = some (record s { kind = some k })
set_socket (some other) k s = none

unfoldable pub set_data : Option Bytes → Option Bytes → Settings → Option Settings
set_data none (some text) s = some (record s { send_data = some text })
set_data _ _ s = none

unfoldable pub set_ca_cert : Bool → CaFile → Settings → Option Settings
set_ca_cert false certificates s = some (record s { root_cas = true })
set_ca_cert _ _ s = none

abbrev with_format : Option Format → Settings → Option Settings
with_format none s = none
with_format (some f) s = some (record s { print_format = f })

abbrev with_number : Option ℤ → (ℤ → Settings) → Option Settings
with_number none store = none
with_number (some n) store = some (store n)

-- What an option does; `none` is an error, which ends the program.
unfoldable pub set_flag : Flag → Settings → Option Settings
unfolding add_dial add_listen set_socket set_data set_ca_cert set_format
set_flag (socket_type k) s = set_socket s.kind k s
set_flag (bind addr) s = add_listen addr s
set_flag (connect addr) s = add_dial addr s
set_flag (bind_ipc path) s = add_listen (ipc_prefix ++ path) s
set_flag (connect_ipc path) s = add_dial (ipc_prefix ++ path) s
set_flag (bind_local port) s = add_listen (local_prefix ++ port) s
set_flag (connect_local port) s = add_dial (local_prefix ++ port) s
set_flag (subscribe sub) s = some (record s { subscriptions = s.subscriptions ++ sub ∷ [] })
set_flag (recv_timeout_flag to) s = with_number to (λ n. record s { recv_timeout = n })
set_flag (send_timeout_flag to) s = with_number to (λ n. record s { send_timeout = n })
set_flag (send_delay_flag to) s = with_number to (λ n. record s { send_delay = n })
set_flag (interval to) s = with_number to (λ n. record s { send_interval = n })
set_flag (format f) s = with_format (set_format (some f) s.print_format) s
set_flag (send_text text) s = set_data s.send_data (some text) s
set_flag (send_file found) s = set_data s.send_data found s
set_flag (cert path) s = if is_empty s.cert_file then some (record s { cert_file = path }) else none
set_flag (key path) s = if is_empty s.key_file then some (record s { key_file = path }) else none
set_flag (cacert file) s = set_ca_cert s.root_cas file s
set_flag insecure s = some (record s { no_verify_tls = true })

-- `goopt.Parse`: the options, in their order.
unfoldable pub parse : List Flag → Settings → Option Settings
parse [] s = some s
parse (flag ∷ flags) s = elim (set_flag flag s) [ none ↦ none | some s' ↦ parse flags s' ]
