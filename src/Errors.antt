-- ===== src/Errors.antt =====
-- errors.go: the error values of the package. Go's nil error is `none`.
use mathlib.Core.Path.{◌≡◌, refl, ap}

pub data Error : Type 0 where
  bad_addr bad_header bad_version too_short too_long closed conn_refused : Error
  send_timeout recv_timeout proto_state proto_op bad_tran bad_proto : Error
  pipe_full pipe_empty bad_option bad_value garbled addr_in_use bad_property : Error
  tls_no_config tls_no_cert : Error
  -- An error of the network or of the operating system, by a number.
  foreign : Error

pub data Result {ℓ} (A : Type ℓ) : Type ℓ where
  ok : A → Result A
  err : Error → Result A

-- `if err != nil { return err }` before the next call.
abbrev pub or_else {ℓ κ} : {A : Type ℓ} {B : Type κ} → Result A → (A → Result B) → Result B
or_else (err e) f = err e
or_else (ok a) f = f a

pub or_else-ok {ℓ κ} :
    {A : Type ℓ} {B : Type κ} (r : Result A) (f : A → Result B) (b : B)
    → or_else r f ≡ ok b
    → (a : A) × (r ≡ ok a) × (f a ≡ ok b)
or_else-ok (ok a) f b h = (a, refl, h)
or_else-ok (err e) f b h = cc

abbrev ok_or {ℓ} : {A : Type ℓ} → A → Result A → A
ok_or a (ok b) = b
ok_or a (err e) = a

pub ok-injective {ℓ} : {A : Type ℓ} (a b : A) → ok a ≡ ok b → a ≡ b
ok-injective a b h = ap (ok_or a) h
