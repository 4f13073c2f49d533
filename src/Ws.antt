-- ===== src/Ws.antt =====
-- transport/ws/ws.go: the WebSocket transport. The HTTP server and the WebSocket library are the events and
-- the results that they give; pipes are numbered in the order in which the handler makes them.
pub mod Names
pub mod Pending
pub mod Origins
pub mod Settings
use mangos_v.Prelude.{
  ℕ, ◌+◌, Bool, true, false, not, Option, none, some, List, [], ◌∷◌, ◌++◌, if◌then◌else◌, ◌==◌,
}
use mangos_v.Prelude.Bytes.{Bytes, bytes, slice}
use mangos_v.Prelude.Strings.{equal, has_prefix}
use mangos_v.Prelude.Int.{ℤ, pos}
use mangos_v.Errors.{
  closed, Error, Result, bad_option, bad_value, err, ok, or_else, tls_no_cert, tls_no_config,
}
use mangos_v.Options.{OptionName, Value, as_bool, as_tls}
use mangos_v.Message.{Message, expired}
use mangos_v.Peers.{Kind, name, peer_name}
use mangos_v.Inproc.{split_last}
use mangos_v.Ws.Settings.{WsOptions, get, set, websocket_check_origin, empty_options}
use mangos_v.Core.Pipes.{contains, remove}

-- `".sp.nanomsg.org"`.
abbrev pub suffix : Bytes
suffix =
    b'.' ∷ b's' ∷ b'p' ∷ b'.' ∷ b'n' ∷ b'a' ∷ b'n' ∷ b'o' ∷ b'm' ∷ b's' ∷ b'g' ∷ b'.' ∷ b'o' ∷ b'r'
    ∷ b'g' ∷ []

-- The subprotocols that a dialer asks for, and those that a listener's upgrader offers.
unfoldable pub requested : Kind → List Bytes
requested k = (peer_name k ++ suffix) ∷ []

unfoldable pub supported : Kind → List Bytes
supported k = (name k ++ suffix) ∷ []

-- A listener. `open_pipes` is the set of the pipes whose `open` is true; `is_listening` tells whether
-- its `net.Listener` is open, and `checks_origin` whether `ug.CheckOrigin` is nil.
pub record Listener : Type 0 where
  pub pending : List ℕ
  pub running : Bool
  pub noserve : Bool
  pub is_listening : Bool
  pub checks_origin : Bool
  pub proto : Kind
  pub opts : WsOptions
  pub iswss : Bool
  pub open_pipes : List ℕ
  pub next : ℕ

-- "wss://".
abbrev wss : Bytes
wss = b'w' ∷ b's' ∷ b's' ∷ b':' ∷ b'/' ∷ b'/' ∷ []

-- `listener` of the transport, where `url.ParseRequestURI` takes the address.
unfoldable pub new_listener : Bytes → Kind → Listener
new_listener addr k = record {
  pending = [];
  running = false;
  noserve = false;
  is_listening = false;
  checks_origin = true;
  proto = k;
  opts = empty_options;
  iswss = has_prefix addr wss;
  open_pipes = [];
  next = 0;
}

-- `SetOption` of the listener: first the origin check of the upgrader, then the map.
abbrev pub open_origin : OptionName → Value → Bool → Bool
open_origin (OptionName.unnamed n) (Value.bool false) checks = if n == 3 then false else checks
open_origin name v checks = checks

abbrev pub stored : Listener → Result WsOptions → Listener × Option Error
stored l (ok o) = (record l { opts = o }, none)
stored l (err e) = (l, some e)

unfoldable pub set_option : OptionName → Value → Listener → Listener × Option Error
unfolding set
set_option name v l =
    stored (record l { checks_origin = open_origin name v l.checks_origin }) (set name v l.opts)

-- A dialer.
pub record WsDialer : Type 0 where
  pub addr : Bytes
  pub proto : Kind
  pub opts : WsOptions

-- `NewDialer`.
unfoldable pub new_dialer : Bytes → Kind → WsDialer
new_dialer addr k = record {
  addr = addr;
  proto = k;
  opts = record empty_options {
    no_delay = some (Value.bool true);
    keep_alive = some (Value.bool true);
  };
}

-- `Dial`, where the WebSocket library's dialer takes the address, the subprotocols and the TLS configuration, which
-- is nil where the map has none; `none` is a failing type assertion.
unfoldable pub dial :
    {C : Type 0} → (Bytes → List Bytes → Option ℕ → Result C) → WsDialer → Option (Result C)
unfolding requested
dial connect d = elim d.opts.tls_config [
  | none ↦ some (connect d.addr (requested d.proto) none)
  | some v ↦ elim (as_tls v) [
    | none ↦ none
    | some config ↦ some (connect d.addr (requested d.proto) config)
  ]
]

-- The values that `GetOption` of the listener gives; the mux and the handler are objects.
pub data ListenerValue : Type 0 where
  mux handler_object : ListenerValue
  plain_value : Value → ListenerValue

abbrev pub origin_value : Result Value → Value
origin_value (ok (Value.bool b)) = Value.bool b
origin_value _ = Value.bool true

abbrev plain_result : Result Value → Result ListenerValue
plain_result (ok v) = ok (plain_value v)
plain_result (err e) = err e

abbrev get_unnamed_option : ℕ → Listener → Listener × Result ListenerValue
get_unnamed_option n l =
    if n == 1
    then (l, ok mux)
    else if n == 2
    then (record l { running = true; noserve = true }, ok handler_object)
    else if n == 3
    then (l, ok (plain_value (origin_value (get websocket_check_origin l.opts))))
    else (l, err bad_option)

unfoldable pub get_option : OptionName → Listener → Listener × Result ListenerValue
unfolding get
get_option (OptionName.unnamed n) l = get_unnamed_option n l
get_option name l = (l, plain_result (get name l.opts))

-- What `Listen` does.
pub data Listened : Type 0 where
  listens panics_listening : Listened
  refused : Error → Listened

-- The TLS configuration that it needs for wss. A nil `*tls.Config` passes the test for a nil interface, and
-- its certificates are then read. A value of another type would panic, and `set` stores none.
abbrev pub ready_for_tls : Option (Option ℕ) → Listened
ready_for_tls none = refused tls_no_config
ready_for_tls (some none) = panics_listening
ready_for_tls (some (some n)) = if n == 0 then refused tls_no_cert else listens

abbrev pub config_of : Option Value → Option (Option ℕ)
config_of none = none
config_of (some v) = as_tls v

-- The rest of `Listen`, by what resolving the address and `net.ListenTCP` give.
abbrev pub listen_now : Listened → Option Error → Listener → Listener × Listened
listen_now listens (some e) l = (l, refused e)
listen_now listens none l =
    (record l { is_listening = true; pending = []; running = true }, listens)
listen_now other bound l = (l, other)

unfoldable pub listen : Option Error → Listener → Listener × Listened
listen bound l =
    if l.noserve
    then (l, listens)
    else listen_now (if l.iswss then ready_for_tls (config_of l.opts.tls_config) else listens) bound
        l

-- `Close` of a pipe.
unfoldable pub close_pipe : ℕ → Listener → Listener
close_pipe id l = record l { open_pipes = remove id l.open_pipes }

unfoldable pub close_pipes : List ℕ → List ℕ → List ℕ
close_pipes [] pipes = pipes
close_pipes (id ∷ ids) pipes = close_pipes ids (remove id pipes)

-- `handler` for a connection with this subprotocol: the pipe's number, if there is one. Its goroutine
-- then waits until the pipe is closed.
unfoldable pub handle : Bytes → Listener → Listener × Option ℕ
handle subprotocol l =
    if not l.running
    then (l, none)
    else if not (equal subprotocol (name l.proto ++ suffix))
    then (l, none)
    else (
      record l {
        pending = l.pending ++ l.next ∷ [];
        open_pipes = l.next ∷ l.open_pipes;
        next = l.next + 1;
      },
      some l.next,
    )

-- `Accept`; `none` is a call that waits.
abbrev pub take_pending : Option (List ℕ × ℕ) → Listener → Listener × Option (Result ℕ)
take_pending none l = (l, none)
take_pending (some (rest, id)) l = (record l { pending = rest }, some (ok id))

unfoldable pub accept : Listener → Listener × Option (Result ℕ)
unfolding split_last
accept l = if not l.running then (l, some (err closed)) else take_pending (split_last l.pending) l

-- `Close` of the listener.
unfoldable pub close : Listener → Listener × Option Error
unfolding close_pipes
close l = if not l.running then (l, some closed) else (
  record l {
    running = false;
    is_listening = false;
    open_pipes = close_pipes l.pending l.open_pipes;
    pending = [];
  },
  none,
)

-- `Send` of a pipe at the time `now`: what is written as one WebSocket message, if anything is.
unfoldable pub send : ℕ → Message → Option Bytes
send now m = if expired now m then none else some (bytes m.header ++ m.body)

-- `Recv`, with the message that `NewMessage` gives.
unfoldable pub recv : Message → Bytes → Message
recv blank body = record blank { body = body }
