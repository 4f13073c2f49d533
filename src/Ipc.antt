-- ===== src/Ipc.antt =====
-- transport/ipc/ipc_unix.go: the transport over UNIX sockets, whose dialers and listeners have no options. The
-- calls of Go's package net are the record `UnixNet`.
pub mod Windows
use mangos_v.Prelude.{Option, none, some, List, [], ◌∷◌}
use mangos_v.Prelude.Bytes.{Bytes}
use mangos_v.Errors.{or_else, foreign, Error, Result, bad_option, err, ok}
use mangos_v.Options.{OptionName, Value}
use mangos_v.Peers.{Kind}
use mangos_v.Conn.Handshake.{Shaken, handshake}
use mangos_v.Core.Addresses.{Transport, strip_scheme}

pub record UnixNet (A C L : Type 0) : Type 0 where
  pub resolve : Bytes → Result A  -- `net.ResolveUnixAddr`
  pub dial_unix : A → Result C
  pub listen_unix : A → Result L
  pub accept_unix : L → Result C
  pub sent_by_peer : C → Bytes

pub record IpcDialer (A : Type 0) : Type 0 where
  pub addr : A

pub record IpcListener (A L : Type 0) : Type 0 where
  pub addr : A
  pub listening : Option L

-- "ipc".
abbrev pub ipc : Bytes
ipc = b'i' ∷ b'p' ∷ b'c' ∷ []

-- `get` and `set`, on a map that is nil.
unfoldable pub get : OptionName → Result Value
get name = err bad_option

unfoldable pub set {ℓ} : {D : Type ℓ} → OptionName → Value → D → Result D
set name v d = err bad_option

module _ {A C L : Type 0} (net : UnixNet A C L) where
  -- `NewConnPipeIPC` on a new connection: its handshake is that of the other connections.
  abbrev pub reach : Kind → Result Value → Result C → Result Shaken
  reach k limit r = or_else r (λ c. ok (handshake k limit [] (net.sent_by_peer c)))

  unfoldable pub dial : Kind → Result Value → IpcDialer A → Result Shaken
  dial k limit d = reach k limit (net.dial_unix d.addr)

  unfoldable pub listen : IpcListener A L → Result (IpcListener A L)
  listen l = or_else (net.listen_unix l.addr) (λ h. ok (record l { listening = some h }))

  -- `AcceptUnix` of a nil listener gives an error of the system, EINVAL.
  abbrev accept_on : Option L → Result C
  accept_on none = err foreign
  accept_on (some h) = net.accept_unix h

  unfoldable pub accept : Kind → Result Value → IpcListener A L → Result Shaken
  accept k limit l = reach k limit (accept_on l.listening)

  -- `NewDialer` and `NewListener` of the transport.
  unfoldable pub make_dialer : Bytes → Result (IpcDialer A)
  unfolding strip_scheme
  make_dialer addr =
      or_else (strip_scheme ipc addr)
        (λ rest. or_else (net.resolve rest) (λ a. ok (record { addr = a })))

  unfoldable pub make_listener : Bytes → Result (IpcListener A L)
  unfolding strip_scheme
  make_listener addr =
      or_else (strip_scheme ipc addr)
        (λ rest. or_else (net.resolve rest) (λ a. ok (record { addr = a; listening = none })))

  abbrev pub ipc_transport : Transport (IpcDialer A) (IpcListener A L)
  ipc_transport = record {
    scheme = ipc;
    make_dialer = make_dialer;
    make_listener = make_listener;
    dialer_option = set;
    listener_option = set;
    bind = listen;
  }
