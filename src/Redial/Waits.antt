-- ===== src/Redial/Waits.antt =====
-- How long a dialer waits.
use mangos_v.Prelude.{
  ℕ, zero, suc, ◌*◌, ◌^◌, ◌<◌, min, ◌≡◌, refl, ap, ◌∙◌, false, none, some, List, [], ◌∷◌, arith,
}
use mangos_v.Errors.{closed}
use mangos_v.Redial.{
  Dialed, Dialer, close, connects, dial, double, fails, next_wait, turn, waits_from,
}
use mangos_v.Message.{fresh}
use mangos_v.Prelude.Int.{pos, ℤ}

-- What the waits are to be: doubled with each failure in a row up to the bound, and the reconnect time
-- after a connection.
abbrev pub doubled : ℕ → ℕ → ℕ
doubled r zero = r
doubled r (suc k) = 2 * doubled r k

-- The wait after `k` failures in a row. The first is the reconnect time, whatever the bound.
abbrev pub backed_off : ℕ → ℕ → ℕ → ℕ
backed_off r m zero = r
backed_off r m (suc k) = min (doubled r (suc k)) m

-- The waits for a list of outcomes, after `k` failures in a row.
abbrev pub expected : ℕ → ℕ → ℕ → List Dialed → List ℤ
expected r m k [] = []
expected r m k (fails ∷ ds) = pos (backed_off r m k) ∷ expected r m (suc k) ds
expected r m k (connects ∷ ds) = pos r ∷ expected r m 1 ds

next_wait-min : (m a : ℕ) → a < 2 ^ 62 → 0 < m → next_wait (pos m) (pos a) ≡ pos (min (2 * a) m)
unfolding next_wait double
next_wait-min m a small positive = ground arith

next_wait-backed_off :
    (r m k : ℕ)
    → r < 2 ^ 62
    → 0 < m
    → m < 2 ^ 62
    → next_wait (pos m) (pos (backed_off r m k)) ≡ pos (backed_off r m (suc k))
next_wait-backed_off r m zero small positive bound = next_wait-min m r small positive
next_wait-backed_off r m (suc k) small positive bound =
    next_wait-min m (min (doubled r (suc k)) m) (omega arith) positive ∙ ap pos (omega arith)

-- With a positive bound, and times below 2⁶² nanoseconds (146 years): the waits are the reconnect time
-- doubled with each failure in a row up to the bound, and start again after each connection.
pub waits_from-backed_off :
    (r m k : ℕ) (ds : List Dialed)
    → r < 2 ^ 62
    → 0 < m
    → m < 2 ^ 62
    → waits_from (pos r) (pos m) ds (pos (backed_off r m k)) ≡ expected r m k ds
unfolding waits_from turn
waits_from-backed_off r m k [] small positive bound = refl
waits_from-backed_off r m k (fails ∷ ds) small positive bound =
    rw (next_wait-backed_off r m k small positive bound) (
      ap (◌∷◌ (pos (backed_off r m k))) (waits_from-backed_off r m (suc k) ds small positive bound))
waits_from-backed_off r m k (connects ∷ ds) small positive bound =
    rw (next_wait-backed_off r m 0 small positive bound)
      (ap (◌∷◌ (pos r)) (waits_from-backed_off r m 1 ds small positive bound))

-- A dialer that is closed before it dials: `Dial` reports no error and starts the goroutine with an
-- open channel, and the dialer cannot be closed again, so nothing but the socket's close or a successful
-- dial stops it.
pub closed_dialer_dials :
    (d : Dialer)
    → d.is_closed ≡ false
    → d.active ≡ false
    → let (d1, e1) = close d in
      let (d2, e2) = dial d1 in
      (e1 ≡ none) × (e2 ≡ none) × (d2.closeq ≡ false) × (close d2 ≡ (d2, some closed))
unfolding close dial
closed_dialer_dials d fresh idle = rw (fresh, idle) (refl, refl, refl, refl)
