-- ===== src/Redial.antt =====
-- core.go, `dialer`: a dialer's calls, and its goroutine, which dials again when a dial fails or a
-- connection ends, after a wait that may grow.
pub mod Waits
use mangos_v.Prelude.{
  ◌+◌, ◌-◌, ◌*◌, ◌^◌, Bool, true, false, Option, none, some, List, [], ◌∷◌, ltb, leb, if◌then◌else◌,
}
use mangos_v.Errors.{closed, Error, addr_in_use}
use mangos_v.Prelude.Int.{ltb_ℤ, negsuc, pos, ℤ}

pub record Dialer : Type 0 where
  pub is_closed : Bool  -- `closed`
  pub active : Bool
  pub closeq : Bool  -- whether the channel that it holds is closed

-- `NewDialer`, where the transport makes the dialer and takes the options.
unfoldable pub new_dialer : Dialer
new_dialer = record { is_closed = false; active = false; closeq = false }

-- `Dial`: a new goroutine starts unless there is an error.
unfoldable pub dial : Dialer → Dialer × Option Error
dial d =
    if d.active then (d, some addr_in_use) else (record d { active = true; closeq = false }, none)

-- `Close` of the dialer.
unfoldable pub close : Dialer → Dialer × Option Error
close d =
    if d.is_closed then (d, some closed) else (record d { is_closed = true; closeq = true }, none)

-- Twice a `time.Duration`, which is an int64.
unfoldable pub double : ℤ → ℤ
double (pos n) = if ltb n (2 ^ 62) then pos (2 * n) else negsuc (2 ^ 64 - 2 * n - 1)
double (negsuc n) = if leb (n + 1) (2 ^ 62) then negsuc (2 * n + 1) else pos (2 ^ 64 - 2 * n - 2)

-- The time to wait after this one.
unfoldable pub next_wait : ℤ → ℤ → ℤ
next_wait rtmax rtime =
    let r = double rtime in
    if ltb_ℤ (pos 0) rtmax then if ltb_ℤ rtmax r then rtmax else r else rtime

-- What the goroutine meets in one turn of its loop: a failed dial, or a connection that lasted some time.
pub data Dialed : Type 0 where
  fails connects : Dialed

-- One turn, in which neither the dialer nor the socket is closed: the wait, and the wait to follow it.
unfoldable pub turn : ℤ → ℤ → Dialed → ℤ → ℤ × ℤ
turn reconntime rtmax fails rtime = (rtime, next_wait rtmax rtime)
turn reconntime rtmax connects rtime = (reconntime, next_wait rtmax reconntime)

-- The waits of the goroutine, which starts with the reconnect time.
unfoldable pub waits_from : ℤ → ℤ → List Dialed → ℤ → List ℤ
waits_from reconntime rtmax [] rtime = []
waits_from reconntime rtmax (d ∷ ds) rtime =
    let (wait, rtime') = turn reconntime rtmax d rtime in
    wait ∷ waits_from reconntime rtmax ds rtime'
