-- ===== src/Backtrace/Paths.antt =====
-- Return paths: what the devices between a requester and a replier stack on a request, and what
-- the loop of `Backtrace` makes of such a stack.
use mangos_v.Prelude.{
  ℕ, zero, suc, ◌/◌, ◌%◌, ◌^◌, ◌≤◌, ◌<◌, ◌≡◌, refl, true, false, none, some, List, [], ◌∷◌, ◌++◌,
  arith, ltb, if◌then◌else◌, lt→ltb, ltb-false, length, All,
}
use mangos_v.Prelude.Bytes.{Bytes, Slice, append, put_u32, append_twice, top_bit}
use mangos_v.Backtrace.{move_backtrace}
use mathlib.Core.List.{append_assoc}

-- The words of a path: the pipes it came by, latest first, then the request identifier.
unfoldable pub path : List ℕ → ℕ → Bytes
path [] id = put_u32 id
path (v ∷ vs) id = put_u32 v ++ path vs id

-- A pipe identifier keeps its top bit clear; a request identifier has it set.
abbrev pub IsPipeId : ℕ → Type 0
IsPipeId v = v < 2 ^ 31

abbrev pub IsRequestId : ℕ → Type 0
IsRequestId id = (2 ^ 31 ≤ id) × (id < 2 ^ 32)

top_bit-pipe : (v : ℕ) → IsPipeId v → top_bit (v / 2 ^ 24 % 256) ≡ false
top_bit-pipe v h = ground arith

top_bit-request : (id : ℕ) → IsRequestId id → top_bit (id / 2 ^ 24 % 256) ≡ true
top_bit-request id h = ground arith

move_pipe :
    (left v : ℕ) (header : Slice) (rest : Bytes)
    → IsPipeId v
    → move_backtrace (suc left) header (put_u32 v ++ rest)
      ≡ move_backtrace left (append header (put_u32 v)) rest
unfolding move_backtrace put_u32
move_pipe left v header rest h = rw (top_bit-pipe v h)

move_request :
    (left id : ℕ) (header : Slice) (rest : Bytes)
    → IsRequestId id
    → move_backtrace (suc left) header (put_u32 id ++ rest)
      ≡ some (append header (put_u32 id), rest)
unfolding move_backtrace put_u32
move_request left id header rest h = rw (top_bit-request id h)

move_none : (header : Slice) (body : Bytes) → move_backtrace 0 header body ≡ none
unfolding move_backtrace
move_none header body = refl

-- On a body that is a path (words of pipes, then the word of a request) and a rest, the loop moves
-- exactly the path, and gives up exactly if the path has no fewer pipe words than `left`.
pub move_backtrace-path :
    (left : ℕ) (vs : List ℕ) (id : ℕ) (header : Slice) (rest : Bytes)
    → All IsPipeId vs
    → IsRequestId id
    → move_backtrace left header (path vs id ++ rest)
      ≡ (if ltb (length vs) left then some (append header (path vs id), rest) else none)
unfolding path
move_backtrace-path zero vs id header rest hv hi =
    rw (ltb-false (length vs) 0 (omega arith)) (move_none header _)
move_backtrace-path (suc left) [] id header rest hv hi =
    rw (lt→ltb 0 (suc left) (omega arith)) (move_request left id header rest hi)
move_backtrace-path (suc left) (v ∷ vs) id header rest hv hi =
    rw (append_assoc (put_u32 v) (path vs id) rest, move_pipe left v header _ hv.0)
      (rw (move_backtrace-path left vs id (append header (put_u32 v)) rest hv.1 hi)
        (rw (append_twice header (put_u32 v) (path vs id)) (ground arith)))
