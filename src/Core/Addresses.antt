-- ===== src/Core/Addresses.antt =====
-- core.go: how an address finds its transport, and how a socket dials and listens; StripScheme of
-- transport.go. A transport is a record of its operations, over its dialers and its listeners.
pub mod Schemes
pub mod Active
use mangos_v.Prelude.{
  ℕ, Bool, true, Option, none, some, List, [], ◌∷◌, ◌++◌, if◌then◌else◌, length, take, drop,
}
use mangos_v.Prelude.Bytes.{Bytes}
use mangos_v.Prelude.Strings.{equal, has_prefix, index}
use mangos_v.Errors.{or_else, Error, Result, bad_tran, err, ok}
use mangos_v.Options.{OptionName, Value}
use mangos_v.Core.{Socket}
use mangos_v.Redial.{Dialer}
use mangos_v.Redial

-- The interfaces Transport, PipeDialer and PipeListener (transport.go, lines 76 to 143). A call that
-- fails leaves the dialer or the listener as it is.
pub record Transport (D L : Type 0) : Type 0 where
  pub scheme : Bytes
  pub make_dialer : Bytes → Result D
  pub make_listener : Bytes → Result L
  pub dialer_option : OptionName → Value → D → Result D
  pub listener_option : OptionName → Value → L → Result L
  pub bind : L → Result L

-- `"://"`.
abbrev pub mark : Bytes
mark = 58 ∷ 47 ∷ 47 ∷ []

-- `SetOption` for each of the options, in the order in which the map yields them.
unfoldable pub take_options :
    {A : Type 0} → (OptionName → Value → A → Result A) → List (OptionName × Value) → A → Result A
take_options store [] a = ok a
take_options store ((name, v) ∷ options) a = or_else (store name v a) (take_options store options)

-- `StripScheme` for a transport of this scheme.
unfoldable pub strip_scheme : Bytes → Bytes → Result Bytes
strip_scheme scheme addr =
    if has_prefix addr (scheme ++ mark)
    then ok (drop (length (scheme ++ mark)) addr)
    else err bad_tran

module _ {D L : Type 0} where
  -- The map `transports`, from a scheme.
  unfoldable pub by_scheme : Bytes → List (Bytes × Transport D L) → Option (Transport D L)
  by_scheme scheme [] = none
  by_scheme scheme ((name, t) ∷ ts) = if equal name scheme then some t else by_scheme scheme ts

  unfoldable pub store_at :
      Bytes → Transport D L → List (Bytes × Transport D L) → List (Bytes × Transport D L)
  store_at scheme t [] = (scheme, t) ∷ []
  store_at scheme t ((name, u) ∷ ts) =
      let rest = store_at scheme t ts in
      if equal name scheme then (scheme, t) ∷ ts else (name, u) ∷ rest

  unfoldable pub add_transport :
      Transport D L → List (Bytes × Transport D L) → List (Bytes × Transport D L)
  unfolding store_at
  add_transport t ts = store_at t.scheme t ts

  abbrev pub up_to : Option ℕ → Bytes → List (Bytes × Transport D L) → Option (Transport D L)
  up_to none addr ts = none
  up_to (some i) addr ts = by_scheme (take i addr) ts

  unfoldable pub get_transport : Bytes → List (Bytes × Transport D L) → Option (Transport D L)
  get_transport addr ts = up_to (index addr mark) addr ts

  abbrev pub or_bad_tran : Option (Transport D L) → Result (Transport D L)
  or_bad_tran none = err bad_tran
  or_bad_tran (some t) = ok t

  -- `NewDialer` and `NewListener` of the socket; the listener comes with its transport.
  unfoldable pub new_dialer :
      Bytes → List (OptionName × Value) → List (Bytes × Transport D L) → Result D
  unfolding get_transport
  new_dialer addr options ts =
      or_else (or_bad_tran (get_transport addr ts))
        (λ t. or_else (t.make_dialer addr) (take_options t.dialer_option options))

  unfoldable pub new_listener :
      Bytes → List (OptionName × Value) → List (Bytes × Transport D L) → Result (Transport D L × L)
  unfolding get_transport
  new_listener addr options ts = or_else (or_bad_tran (get_transport addr ts)) (λ t.
      or_else (t.make_listener addr)
        (λ l. or_else (take_options t.listener_option options l) (λ l'. ok (t, l'))))

-- A socket with its transports and its listeners.
pub record Sites (S D L : Type 0) : Type 0 where
  pub socket : Socket S
  pub transports : List (Bytes × Transport D L)
  pub listeners : List L

abbrev pub activate : {S : Type 0} → Socket S → Socket S
activate s = record s { active = true }

module _ {S D L : Type 0} where
  -- `Dial` of the dialer that there may be: its goroutine starts.
  unfoldable pub start_dialing : Result D → Sites S D L → Sites S D L × Result (D × Dialer)
  start_dialing (err e) w = (w, err e)
  start_dialing (ok d) w =
      let (dialer, failure) = Redial.dial Redial.new_dialer in
      elim failure [
        | some e ↦ (w, err e)
        | none ↦ (record w { socket = activate w.socket }, ok (d, dialer))
      ]

  -- `DialOptions`.
  unfoldable pub dial_options :
      Bytes → List (OptionName × Value) → Sites S D L → Sites S D L × Result (D × Dialer)
  unfolding new_dialer start_dialing
  dial_options addr options w = start_dialing (new_dialer addr options w.transports) w

  -- `Listen` of the listener, by what the transport's `Listen` gives.
  abbrev pub bound : Result L → Sites S D L → Sites S D L × Option Error
  bound (err e) w = (w, some e)
  bound (ok l) w =
      (record w { listeners = w.listeners ++ l ∷ []; socket = activate w.socket }, none)

  unfoldable pub listen : Transport D L → L → Sites S D L → Sites S D L × Option Error
  listen t l w = bound (t.bind l) w

  unfoldable pub start_listening :
      Result (Transport D L × L) → Sites S D L → Sites S D L × Option Error
  unfolding listen
  start_listening (err e) w = (w, some e)
  start_listening (ok (t, l)) w = listen t l w

  -- `ListenOptions`.
  unfoldable pub listen_options :
      Bytes → List (OptionName × Value) → Sites S D L → Sites S D L × Option Error
  unfolding new_listener start_listening
  listen_options addr options w = start_listening (new_listener addr options w.transports) w
