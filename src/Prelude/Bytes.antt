-- ===== src/Prelude/Bytes.antt =====
-- Byte strings, and the big-endian words that the wire formats use: `byte(v>>24), …` and
-- `binary.BigEndian`. A Go slice that the program compares with nil keeps its nil-ness.
use Prim.Native.Nat.{ℕ, ◌+◌, ◌*◌, ◌/◌, ◌%◌, ◌^◌, ◌≤◌, ◌<◌}
use mathlib.Core.Path.{◌≡◌, refl, ap, ◌∙◌}
use mathlib.Core.Bool.{Bool}
use mathlib.Core.List.{List, [], ◌∷◌, ◌++◌, append_assoc}
use native.Mathlib.Omega.{arith}
use mangos_v.Prelude.Tests.{leb}
use mangos_v.Prelude.Lists.{length, drop, All}

abbrev pub Bytes : Type 0
Bytes = List ℕ

abbrev pub IsByte : ℕ → Type 0
IsByte b = b < 256

abbrev pub u32 : ℕ → ℕ
u32 v = v % 2 ^ 32

-- `v | 0x80000000` and `v & 0x7fffffff` on a uint32.
abbrev pub set_top : ℕ → ℕ
set_top v = v % 2 ^ 31 + 2 ^ 31

abbrev pub clear_top : ℕ → ℕ
clear_top v = v % 2 ^ 31

-- `b & 0x80 != 0` on a byte.
abbrev pub top_bit : ℕ → Bool
top_bit b = leb 128 (b % 256)

-- `byte(v>>24), byte(v>>16), byte(v>>8), byte(v)`.
unfoldable pub put_u32 : ℕ → Bytes
put_u32 v = (v / 2 ^ 24 % 256) ∷ (v / 2 ^ 16 % 256) ∷ (v / 2 ^ 8 % 256) ∷ (v % 256) ∷ []

-- `binary.BigEndian.Uint32`. Go panics below four bytes; every call stands behind that test.
unfoldable pub get_u32 : Bytes → ℕ
get_u32 (a ∷ b ∷ c ∷ d ∷ rest) = a * 2 ^ 24 + b * 2 ^ 16 + c * 2 ^ 8 + d
get_u32 _ = 0

pub get-put_u32 : (v : ℕ) (rest : Bytes) → v < 2 ^ 32 → get_u32 (put_u32 v ++ rest) ≡ v
unfolding get_u32 put_u32
get-put_u32 v rest h = omega arith

pub length-put_u32 : (v : ℕ) → length (put_u32 v) ≡ 4
unfolding put_u32
length-put_u32 v = refl

pub drop-put_u32 : (v : ℕ) (rest : Bytes) → drop 4 (put_u32 v ++ rest) ≡ rest
unfolding put_u32
drop-put_u32 v rest = refl

pub put_u32-IsByte : (v : ℕ) → All IsByte (put_u32 v)
unfolding put_u32
put_u32-IsByte v = omega arith

-- A slice: nil, or the bytes from its start to its length.
pub data Slice : Type 0 where
  nil : Slice
  slice : Bytes → Slice

abbrev pub bytes : Slice → Bytes
bytes nil = []
bytes (slice b) = b

-- `append(s, xs...)`: nil stays nil only when nothing is appended.
unfoldable pub append : Slice → Bytes → Slice
append nil [] = nil
append nil (x ∷ xs) = slice (x ∷ xs)
append (slice b) xs = slice (b ++ xs)

-- `s[4:]`, and `s[0:0]`.
unfoldable pub skip4 : Slice → Slice
skip4 nil = nil
skip4 (slice b) = slice (drop 4 b)

unfoldable pub reset : Slice → Slice
reset nil = nil
reset (slice b) = slice []

pub bytes-append : (s : Slice) (xs : Bytes) → bytes (append s xs) ≡ bytes s ++ xs
unfolding append
bytes-append nil [] = refl
bytes-append nil (x ∷ xs) = refl
bytes-append (slice b) xs = refl

pub bytes-skip4 : (s : Slice) → bytes (skip4 s) ≡ drop 4 (bytes s)
unfolding skip4
bytes-skip4 nil = refl
bytes-skip4 (slice b) = refl

pub bytes-reset : (s : Slice) → bytes (reset s) ≡ []
unfolding reset
bytes-reset nil = refl
bytes-reset (slice b) = refl

pub append_twice : (s : Slice) (xs ys : Bytes) → append (append s xs) ys ≡ append s (xs ++ ys)
unfolding append
append_twice nil [] ys = refl
append_twice nil (x ∷ xs) ys = refl
append_twice (slice b) xs ys = ap slice (append_assoc b xs ys)

-- `append(s[0:0], xs...)` of some bytes is a fresh copy of them.
pub append-reset :
    (s : Slice) (v : ℕ) (rest : Bytes)
    → append (reset s) (put_u32 v ++ rest) ≡ slice (put_u32 v ++ rest)
unfolding append reset put_u32
append-reset nil v rest = refl
append-reset (slice b) v rest = refl

pub not-short : (v : ℕ) (rest : Bytes) → 4 ≤ length (put_u32 v ++ rest)
unfolding put_u32
not-short v rest = omega arith

pub append-reset_nil : (s : Slice) → bytes (append (reset s) []) ≡ []
unfolding append reset
append-reset_nil nil = refl
append-reset_nil (slice b) = refl

pub bytes-skip4_word :
    (s : Slice) (v : ℕ) (rest : Bytes) → bytes s ≡ put_u32 v ++ rest → bytes (skip4 s) ≡ rest
bytes-skip4_word s v rest e = bytes-skip4 s ∙ ap (drop 4) e ∙ drop-put_u32 v rest
