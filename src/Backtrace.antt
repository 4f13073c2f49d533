-- ===== src/Backtrace.antt =====
-- The loop by which REP (protocol/rep/rep.go, lines 105 to 123) and RESPONDENT
-- (protocol/respondent/respondent.go, lines 148 to 165) move a request's return path from the
-- body to the header, one word of four bytes at a time, up to the word whose top bit is set.
pub mod Paths
use mangos_v.Prelude.{ℕ, zero, suc, Option, none, some, [], ◌∷◌, if◌then◌else◌}
use mangos_v.Prelude.Bytes.{Bytes, Slice, append, top_bit}

-- The first argument is `ttl - hops`, the words that may still be moved. `none` stands for both
-- ways to give up: too many hops, and a body that ends before the path does.
unfoldable pub move_backtrace : ℕ → Slice → Bytes → Option (Slice × Bytes)
move_backtrace zero header body = none
move_backtrace (suc left) header (a ∷ b ∷ c ∷ d ∷ rest) =
    let header' = append header (a ∷ b ∷ c ∷ d ∷ []) in
    let more = move_backtrace left header' rest in if top_bit a then some (header', rest) else more
move_backtrace (suc left) header _ = none
