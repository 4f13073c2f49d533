-- ===== src/Req/Values.antt =====
-- `SetOption` and `GetOption` of REQ, for values of every type.
use mangos_v.Prelude.{◌≡◌, refl, Bool, true, false, none, some}
use mangos_v.Req.{Req, get_option, next_id, send_hook, set_option}
use mangos_v.Message.{Message}
use mangos_v.Options.{OptionName, Value, as_bool, as_duration}
use mangos_v.Errors.{bad_value, ok}
use mangos_v.Prelude.Int.{ℤ}

-- Options that REQ accepts, each with a value of its type.
pub data Fits : OptionName → Value → Type 0 where
  raw_fits : (b : Bool) → Fits OptionName.raw (Value.bool b)
  retry_fits : (d : ℤ) → Fits OptionName.retry_time (Value.duration d)

-- An option that REQ accepts, with a value of its type, is set without an error and read back as
-- set; the request, its timer and the endpoints are left alone.
pub get-set_option :
    {name : OptionName} {v : Value} (r : Req)
    → Fits name v
    → let (r', e) = set_option name v r in
      (e ≡ none)
      × (get_option name r' ≡ ok v)
      × (r'.reqmsg ≡ r.reqmsg)
      × (r'.waker ≡ r.waker)
      × (r'.eps ≡ r.eps)
unfolding set_option get_option
get-set_option r (raw_fits true) = (refl, refl, refl, refl, refl)
get-set_option r (raw_fits false) = (refl, refl, refl, refl, refl)
get-set_option r (retry_fits d) = (refl, refl, refl, refl, refl)

-- On a cooked socket, a retry time of the wrong type is refused, yet after it the next request's
-- timer is stopped.
pub refused_retry :
    (r : Req) (v : Value) (m : Message)
    → r.raw ≡ false
    → as_duration v ≡ none
    → let (r', e) = set_option OptionName.retry_time v r in
      (e ≡ some bad_value) × ((send_hook r' m).0.waker ≡ none)
unfolding set_option send_hook next_id
refused_retry r v m cooked wrong = rw (cooked, wrong) (refl, refl)

-- A raw mode of the wrong type is refused, yet the socket becomes cooked, with its errors and its
-- outstanding request left as they were.
pub refused_raw :
    (r : Req) (v : Value)
    → as_bool v ≡ none
    → let (r', e) = set_option OptionName.raw v r in
      (e ≡ some bad_value) × (r'.raw ≡ false) × (r'.sock ≡ r.sock) × (r'.reqmsg ≡ r.reqmsg)
unfolding set_option
refused_raw r v wrong = rw wrong (refl, refl, refl, refl)
