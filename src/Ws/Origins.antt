-- ===== src/Ws/Origins.antt =====
-- The origin check of a WebSocket listener.
use mangos_v.Prelude.{◌≡◌, refl, ap, ◌∙◌, true, false, none, List, [], ◌∷◌, arith}
use mangos_v.Errors.{Result, err, ok}
use mangos_v.Options.{OptionName, Value}
use mangos_v.Ws.{Listener, get_option, open_origin, plain_value, set_option, stored}
use mangos_v.Ws.Settings.{WsOptions, get, set, websocket_check_origin}

-- Several calls of `SetOption`, whatever their results.
abbrev pub set_options : List (OptionName × Value) → Listener → Listener
set_options [] l = l
set_options ((name, v) ∷ more) l = set_options more (set_option name v l).0

stored-checks :
    (l : Listener) (r : Result WsOptions) → (stored l r).0.checks_origin ≡ l.checks_origin
stored-checks l (ok o) = refl
stored-checks l (err e) = refl

open_origin_stays : (name : OptionName) (v : Value) → open_origin name v false ≡ false
open_origin_stays (OptionName.unnamed n) (Value.bool false) = ground arith
open_origin_stays (OptionName.unnamed n) _ = refl
open_origin_stays _ v = refl

set_option_stays :
    (name : OptionName) (v : Value) (l : Listener)
    → l.checks_origin ≡ false
    → (set_option name v l).0.checks_origin ≡ false
unfolding set_option
set_option_stays name v l unchecked =
    stored-checks (record l { checks_origin = open_origin name v l.checks_origin })
      (set name v l.opts)
    ∙ ap (open_origin name v) unchecked
    ∙ open_origin_stays name v

set_options_stays :
    (settings : List (OptionName × Value)) (l : Listener)
    → l.checks_origin ≡ false
    → (set_options settings l).checks_origin ≡ false
set_options_stays [] l unchecked = unchecked
set_options_stays ((name, v) ∷ more) l unchecked =
    set_options_stays more (set_option name v l).0 (set_option_stays name v l unchecked)

-- Switching the check off, and trying to switch it on again.
switched_off :
    (l : Listener)
    → (set_option websocket_check_origin (Value.bool false) l).0.checks_origin ≡ false
unfolding set_option set
switched_off l = refl

accepts_true : (l : Listener) → (set_option websocket_check_origin (Value.bool true) l).1 ≡ none
unfolding set_option set
accepts_true l = refl

reads_true :
    (l : Listener)
    → (get_option websocket_check_origin
        (set_option websocket_check_origin (Value.bool true) l).0).1
      ≡ ok (plain_value (Value.bool true))
unfolding set_option set get_option get
reads_true l = refl

-- Once the origin check of a listener has been switched off, whatever options are set after that, switching it
-- on again reports no error and `GetOption` says that it is on, but the upgrader goes on to take
-- connections from any origin.
pub origin_stays_open :
    (l : Listener) (settings : List (OptionName × Value))
    → let off = (set_option websocket_check_origin (Value.bool false) l).0 in
      let (l', e) =
        set_option websocket_check_origin (Value.bool true) (set_options settings off) in
      (e ≡ none)
      × ((get_option websocket_check_origin l').1 ≡ ok (plain_value (Value.bool true)))
      × (l'.checks_origin ≡ false)
origin_stays_open l settings =
    let off = (set_option websocket_check_origin (Value.bool false) l).0 in
    let later = set_options settings off in
    (
      accepts_true later,
      reads_true later,
      set_option_stays websocket_check_origin (Value.bool true) later
          (set_options_stays settings off (switched_off l)),
    )
