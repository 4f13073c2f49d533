-- ===== src/Req/Identifiers.antt =====
-- Request identifiers: `nextID`.
use mangos_v.Prelude.{ℕ, zero, suc, ◌+◌, ◌%◌, ◌^◌, ◌<◌, ◌≡◌, ◌≢◌, arith}
use mangos_v.Req.{Req, next_id}
use mangos_v.Backtrace.Paths.{IsRequestId}

-- The counter is a uint32.
abbrev pub IsCounter : Req → Type 0
IsCounter r = r.nextid < 2 ^ 32

-- The state after `n` calls of `nextID`, and what the next call returns.
unfoldable pub after : ℕ → Req → Req
after zero r = r
after (suc n) r = after n (next_id r).1

unfoldable pub id_at : ℕ → Req → ℕ
id_at n r = (next_id (after n r)).0

nextid-after : (n : ℕ) (r : Req) → IsCounter r → (after n r).nextid ≡ (r.nextid + n) % 2 ^ 32
unfolding after next_id
nextid-after zero r h = omega arith
nextid-after (suc n) r h = omega (arith, nextid-after n (next_id r).1)

-- Every identifier has its top bit set and fits in 32 bits, so it ends a return path.
pub next_id-IsRequestId : (r : Req) → IsRequestId (next_id r).0
unfolding next_id
next_id-IsRequestId r = omega arith

-- Two requests of one socket with a counter of 32 bits that are fewer than 2³¹ requests apart have
-- different identifiers.
pub id_at-distinct :
    (r : Req) (i j : ℕ) → IsCounter r → i < j → j < i + 2 ^ 31 → id_at i r ≢ id_at j r
unfolding id_at next_id
id_at-distinct r i j h lt near = omega (arith, nextid-after i r h, nextid-after j r h)
