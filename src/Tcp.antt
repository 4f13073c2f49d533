-- ===== src/Tcp.antt =====
-- transport/tcp/tcp.go: the options of TCP dialers and listeners, and the transport, with ResolveTCPAddr of
-- transport.go. The network is a record of the calls of Go's package net.
pub mod Settings
pub mod Dials
use mangos_v.Prelude.{true, Bool, Option, none, some, [], ◌∷◌, if◌then◌else◌, ◌==◌}
use mangos_v.Prelude.Bytes.{Bytes}
use mangos_v.Prelude.Int.{ℤ, pos, ltb_ℤ}
use mangos_v.Errors.{or_else, closed, Error, Result, bad_option, bad_value, err, ok}
use mangos_v.Options.{OptionName, Value, as_bool, as_duration}
use mangos_v.Peers.{Kind}
use mangos_v.Conn.Handshake.{Shaken, handshake}
use mangos_v.Core.Addresses.{Transport, strip_scheme}

-- The map `options`; these are the only names that it ever holds.
pub record TcpOptions : Type 0 where
  pub no_delay : Option Value
  pub keep_alive : Option Value
  pub keep_alive_time : Option Value

-- `newOptions`.
unfoldable pub new_options : TcpOptions
new_options = record {
  no_delay = some (Value.bool true);
  keep_alive = some (Value.bool true);
  keep_alive_time = none;
}

abbrev or_bad_option : Option Value → Result Value
or_bad_option none = err bad_option
or_bad_option (some v) = ok v

unfoldable pub get : OptionName → TcpOptions → Result Value
get OptionName.no_delay o = or_bad_option o.no_delay
get OptionName.keep_alive o = or_bad_option o.keep_alive
get OptionName.keep_alive_time o = or_bad_option o.keep_alive_time
get _ o = err bad_option

abbrev or_bad_value {ℓ} : {A : Type ℓ} → Option A → (A → Result TcpOptions) → Result TcpOptions
or_bad_value none f = err bad_value
or_bad_value (some a) f = f a

-- `set`: the new map; an error leaves the map as it is.
unfoldable pub set : OptionName → Value → TcpOptions → Result TcpOptions
set OptionName.no_delay v o =
    or_bad_value (as_bool v) (λ b. ok (record o { no_delay = some (Value.bool b) }))
set OptionName.keep_alive v o =
    or_bad_value (as_bool v) (λ b. ok (record o { keep_alive = some (Value.bool b) }))
set OptionName.keep_alive_time v o = or_bad_value (as_duration v) (λ d.
    if ltb_ℤ d (pos 0)
    then err bad_value
    else ok (record o { keep_alive_time = some (Value.duration d) }))
set _ v o = err bad_option

-- What the transport calls of the network; addresses, connections and listening sockets are the network's.
pub record Net (A C L : Type 0) : Type 0 where
  pub resolve : Bytes → Result A  -- `net.ResolveTCPAddr`
  pub dial_tcp : A → Result C
  pub listen_tcp : A → Result L
  pub accept_tcp : L → Result C
  pub set_no_delay : Bool → C → Result C
  pub set_keep_alive : Bool → C → Result C
  pub set_keep_alive_period : ℤ → C → Result C
  pub sent_by_peer : C → Bytes

-- A connection that is configured, closed after an error, or met by a type assertion that panics.
pub data Configured (C : Type 0) : Type 0 where
  configured : C → Configured C
  closed_after : Error → Configured C
  panics_config : Configured C

-- What `Dial` and `Accept` give: a pipe after its handshake, an error, or a panic.
pub data Reached : Type 0 where
  piped : Shaken → Reached
  unreached : Error → Reached
  panics_reach : Reached

pub record TcpDialer : Type 0 where
  pub addr : Bytes
  pub opts : TcpOptions

pub record TcpListener (A L : Type 0) : Type 0 where
  pub addr : A
  pub listening : Option L
  pub opts : TcpOptions

-- "tcp".
abbrev pub tcp : Bytes
tcp = 116 ∷ 99 ∷ 112 ∷ []

-- `ResolveTCPAddr`: a leading "*" is left out.
unfoldable pub resolve_tcp_addr : {A : Type 0} → (Bytes → Result A) → Bytes → Result A
resolve_tcp_addr resolve [] = resolve []
resolve_tcp_addr resolve (b ∷ addr) = if b == 42 then resolve addr else resolve (b ∷ addr)

module _ {A C L : Type 0} (net : Net A C L) where
  abbrev pub of_result : Result C → Configured C
  of_result (ok c) = configured c
  of_result (err e) = closed_after e

  -- One of the calls of `configTCP`, with the value's type assertion.
  abbrev pub setting {ℓ} :
      {V : Type ℓ}
      → (Value → Option V)
      → (V → C → Result C)
      → Option Value
      → Configured C
      → Configured C
  setting cast store none x = x
  setting cast store (some v) (configured c) = elim (cast v) [
    | none ↦ panics_config
    | some b ↦ of_result (store b c)
  ]
  setting cast store (some v) x = x

  -- `configTCP`, with the `Close` that follows an error.
  unfoldable pub config_tcp : TcpOptions → C → Configured C
  config_tcp o c = setting as_duration net.set_keep_alive_period o.keep_alive_time (
      setting as_bool net.set_keep_alive o.keep_alive
        (setting as_bool net.set_no_delay o.no_delay (configured c)))

  -- `NewConnPipe` on the connection, for a socket of this protocol and receive limit.
  abbrev pub piped_on : Kind → Result Value → Configured C → Reached
  piped_on k limit (configured c) = piped (handshake k limit [] (net.sent_by_peer c))
  piped_on k limit (closed_after e) = unreached e
  piped_on k limit panics_config = panics_reach

  abbrev pub reach : Kind → Result Value → TcpOptions → Result C → Reached
  reach k limit o (err e) = unreached e
  reach k limit o (ok c) = piped_on k limit (config_tcp o c)

  unfoldable pub dial : Kind → Result Value → TcpDialer → Reached
  unfolding resolve_tcp_addr
  dial k limit d = reach k limit d.opts (or_else (resolve_tcp_addr net.resolve d.addr) net.dial_tcp)

  abbrev accept_on : Option L → Result C
  accept_on none = err closed
  accept_on (some l) = net.accept_tcp l

  unfoldable pub accept : Kind → Result Value → TcpListener A L → Reached
  accept k limit l = reach k limit l.opts (accept_on l.listening)

  -- `Listen` of a listener that is not listening yet.
  unfoldable pub listen : TcpListener A L → Result (TcpListener A L)
  listen l = or_else (net.listen_tcp l.addr) (λ h. ok (record l { listening = some h }))

  -- `NewDialer` and `NewListener` of the transport.
  unfoldable pub make_dialer : Bytes → Result TcpDialer
  unfolding strip_scheme resolve_tcp_addr new_options
  make_dialer addr = or_else (strip_scheme tcp addr) (λ rest.
      or_else (resolve_tcp_addr net.resolve rest)
        (λ _. ok (record { addr = rest; opts = new_options })))

  unfoldable pub make_listener : Bytes → Result (TcpListener A L)
  unfolding strip_scheme resolve_tcp_addr new_options
  make_listener addr = or_else (strip_scheme tcp addr) (λ rest.
      or_else (resolve_tcp_addr net.resolve rest)
        (λ a. ok (record { addr = a; listening = none; opts = new_options })))

  abbrev pub dialer_option : OptionName → Value → TcpDialer → Result TcpDialer
  dialer_option name v d = or_else (set name v d.opts) (λ o. ok (record d { opts = o }))

  abbrev pub listener_option : OptionName → Value → TcpListener A L → Result (TcpListener A L)
  listener_option name v l = or_else (set name v l.opts) (λ o. ok (record l { opts = o }))

  abbrev pub tcp_transport : Transport TcpDialer (TcpListener A L)
  tcp_transport = record {
    scheme = tcp;
    make_dialer = make_dialer;
    make_listener = make_listener;
    dialer_option = dialer_option;
    listener_option = listener_option;
    bind = listen;
  }
