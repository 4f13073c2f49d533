-- ===== src/Tls.antt =====
-- transport/tlstcp/tlstcp.go: the transport over TLS. A `*tls.Config` is nil or has so many certificates; the
-- network and the handshakes of the TLS library are the record `TlsNet`.
pub mod Listeners
use mangos_v.Prelude.{ℕ, zero, suc, true, Bool, Option, none, some, List, [], ◌∷◌}
use mangos_v.Prelude.Bytes.{Bytes}
use mangos_v.Prelude.Int.{ℤ, pos}
use mangos_v.Errors.{
  or_else, foreign, Error, Result, bad_option, bad_value, err, ok, tls_no_cert, tls_no_config,
}
use mangos_v.Options.{OptionName, Value, as_tls}
use mangos_v.Peers.{Kind}
use mangos_v.Conn.Handshake.{handshake}
use mangos_v.Core.Addresses.{strip_scheme}
use mangos_v.Tcp.{
  Configured, Net, Reached, TcpOptions, closed_after, config_tcp, configured, panics_config,
  panics_reach, piped, resolve_tcp_addr, unreached,
}
use mangos_v.Tcp

-- The map `options`: what tcp.go has, with the same code, and the TLS configuration.
pub record TlsOptions : Type 0 where
  pub tcp : TcpOptions
  pub tls_config : Option Value

-- `newOptions` of the transport that `NewTransport` makes, whose own configuration is nil.
unfoldable pub new_options : TlsOptions
unfolding Tcp.new_options
new_options = record { tcp = Tcp.new_options; tls_config = some (Value.tls none) }

abbrev or_bad_option : Option Value → Result Value
or_bad_option none = err bad_option
or_bad_option (some v) = ok v

unfoldable pub get : OptionName → TlsOptions → Result Value
unfolding Tcp.get
get OptionName.tls_config o = or_bad_option o.tls_config
get name o = Tcp.get name o.tcp

abbrev or_bad_value : Option (Option ℕ) → TlsOptions → Result TlsOptions
or_bad_value none o = err bad_value
or_bad_value (some c) o = ok (record o { tls_config = some (Value.tls c) })

abbrev pub with_tcp : TlsOptions → Result TcpOptions → Result TlsOptions
with_tcp o r = or_else r (λ t. ok (record o { tcp = t }))

-- `set`: the new map; an error leaves the map as it is.
unfoldable pub set : OptionName → Value → TlsOptions → Result TlsOptions
unfolding Tcp.set
set OptionName.tls_config v o = or_bad_value (as_tls v) o
set name v o = with_tcp o (Tcp.set name v o.tcp)

-- The network, and the two handshakes: `none` is a nil configuration.
pub record TlsNet (A C L X : Type 0) : Type 0 where
  pub net : Net A C L
  pub client : Option ℕ → C → Result X
  pub server : Option ℕ → C → Result X
  pub sent_by_peer : X → Bytes

pub record TlsDialer : Type 0 where
  pub addr : Bytes
  pub opts : TlsOptions

pub record TlsListener (A L : Type 0) : Type 0 where
  pub addr : A
  pub listening : Option L
  pub opts : TlsOptions
  pub config : Option ℕ

-- What `Listen` does.
pub data Started : Type 0 where
  ready panics_start : Started
  refused : Error → Started

-- "tls+tcp".
abbrev pub tls_tcp : Bytes
tls_tcp = b't' ∷ b'l' ∷ b's' ∷ b'+' ∷ b't' ∷ b'c' ∷ b'p' ∷ []

-- A new listener at an address.
unfoldable pub new_at : {A L : Type 0} → A → TlsListener A L
unfolding new_options
new_at a = record { addr = a; listening = none; opts = new_options; config = none }

-- The configuration of a dialer, which is nil when the map has none; `none` is a failing type assertion.
abbrev pub config_of : Option Value → Option (Option ℕ)
config_of none = some none
config_of (some v) = as_tls v

abbrev pub set_on :
    {A L : Type 0} → TlsListener A L → Result TlsOptions → TlsListener A L × Option Error
set_on l (ok o) = (record l { opts = o }, none)
set_on l (err e) = (l, some e)

-- `SetOption` of a listener.
unfoldable pub listener_option :
    {A L : Type 0} → OptionName → Value → TlsListener A L → TlsListener A L × Option Error
unfolding set
listener_option name v l = set_on l (set name v l.opts)

module _ {A C L X : Type 0} (t : TlsNet A C L X) where
  -- `NewConnPipe` on the connection after its handshake.
  abbrev pub piped_on : Kind → Result Value → Result X → Reached
  piped_on k limit (ok x) = piped (handshake k limit [] (t.sent_by_peer x))
  piped_on k limit (err e) = unreached e

  -- What follows `configTCP`.
  abbrev pub secured :
      Kind → Result Value → (Option ℕ → C → Result X) → Option (Option ℕ) → Configured C → Reached
  secured k limit shake (some config) (configured c) = piped_on k limit (shake config c)
  secured k limit shake none (configured c) = panics_reach
  secured k limit shake config (closed_after e) = unreached e
  secured k limit shake config panics_config = panics_reach

  abbrev pub reach :
      Kind
      → Result Value
      → (Option ℕ → C → Result X)
      → Option (Option ℕ)
      → TlsOptions
      → Result C
      → Reached
  reach k limit shake config o (err e) = unreached e
  reach k limit shake config o (ok c) = secured k limit shake config (config_tcp t.net o.tcp c)

  unfoldable pub dial : Kind → Result Value → TlsDialer → Reached
  unfolding resolve_tcp_addr config_tcp
  dial k limit d =
      reach k limit t.client (config_of d.opts.tls_config) d.opts
        (or_else (resolve_tcp_addr t.net.resolve d.addr) t.net.dial_tcp)

  abbrev pub bound : Result L → TlsListener A L → TlsListener A L × Started
  bound (ok h) l = (record l { listening = some h }, ready)
  bound (err e) l = (l, refused e)

  abbrev pub listen_with : Option ℕ → TlsListener A L → TlsListener A L × Started
  listen_with none l = (l, refused tls_no_config)
  listen_with (some zero) l = (l, refused tls_no_cert)
  listen_with (some (suc n)) l = bound (t.net.listen_tcp l.addr) l

  abbrev pub with_config : Option Value → TlsListener A L → TlsListener A L × Started
  with_config none l = (l, refused tls_no_config)
  with_config (some v) l = elim (as_tls v) [
    | none ↦ (l, panics_start)
    | some c ↦ listen_with c (record l { config = c })
  ]

  unfoldable pub listen : TlsListener A L → TlsListener A L × Started
  listen l = with_config l.opts.tls_config l

  -- `AcceptTCP` of a nil listener gives an error of the system, EINVAL.
  abbrev pub accept_on : Option L → Result C
  accept_on none = err foreign
  accept_on (some h) = t.net.accept_tcp h

  unfoldable pub accept : Kind → Result Value → TlsListener A L → Reached
  unfolding config_tcp
  accept k limit l = reach k limit t.server (some l.config) l.opts (accept_on l.listening)

  -- `NewDialer` and `NewListener`.
  unfoldable pub make_dialer : Bytes → Result TlsDialer
  unfolding strip_scheme resolve_tcp_addr new_options
  make_dialer addr = or_else (strip_scheme tls_tcp addr) (λ rest.
      or_else (resolve_tcp_addr t.net.resolve rest)
        (λ _. ok (record { addr = rest; opts = new_options })))

  unfoldable pub make_listener : Bytes → Result (TlsListener A L)
  unfolding strip_scheme resolve_tcp_addr new_at
  make_listener addr =
      or_else (strip_scheme tls_tcp addr)
        (λ rest. or_else (resolve_tcp_addr t.net.resolve rest) (λ a. ok (new_at a)))
