-- ===== src/Macat/Output/Packed.antt =====
-- The output in the format "msgpack" can be read back, as the format's specification says.
use mangos_v.Prelude.{
  ℕ, ◌≡◌, refl, ◌+◌, ◌*◌, ◌/◌, ◌%◌, ◌^◌, ◌<◌, Bool, true, false, Option, none, some, List, [], ◌∷◌,
  ◌++◌, arith, ltb, ◌==◌, if◌then◌else◌, All, length, take, drop, take-length-append,
  drop-length-append, length-append, Bool-cases, inl, inr,
}
use mathlib.Core.List.{append_assoc}
use mangos_v.Prelude.Bytes.{Bytes, get_u32, put_u32, get-put_u32, drop-put_u32, not-short}
use mangos_v.Macat.Output.Streams.{read_all, read_all-print_all}
use mangos_v.Macat.Output.{print_all, print_msg, pack_length, msgpack}

-- `n` bytes, and what follows them.
abbrev cut : ℕ → Bytes → Option (Bytes × Bytes)
cut n text = if ltb (length text) n then none else some (take n text, drop n text)

-- The types "bin 8", "bin 16" and "bin 32", each only for a length that the types before it cannot hold.
abbrev word8 : Bytes → Option (Bytes × Bytes)
word8 (n ∷ text) = cut n text
word8 _ = none

abbrev word16 : Bytes → Option (Bytes × Bytes)
word16 (hi ∷ lo ∷ text) = if ltb (hi * 256 + lo) 256 then none else cut (hi * 256 + lo) text
word16 _ = none

abbrev word32 : Bytes → Option (Bytes × Bytes)
word32 text =
    if ltb (length text) 4
    then none
    else if ltb (get_u32 text) 65536
    then none
    else cut (get_u32 text) (drop 4 text)

unfoldable pub unpack : Bytes → Option (Bytes × Bytes)
unpack [] = none
unpack (tag ∷ text) =
    if tag == 0xc4
    then word8 text
    else if tag == 0xc5
    then word16 text
    else if tag == 0xc6
    then word32 text
    else none

enough : (body rest : Bytes) → ltb (length (body ++ rest)) (length body) ≡ false
enough body rest = ground (arith, length-append body rest)

small : (n : ℕ) → ltb n 256 ≡ true → n % 256 ≡ n
small n h = ground arith

halves : (n : ℕ) → ltb n 65536 ≡ true → n % 2 ^ 16 / 256 * 256 + n % 2 ^ 16 % 256 ≡ n
halves n h = ground arith

cut-append : (body rest : Bytes) → cut (length body) (body ++ rest) ≡ some (body, rest)
cut-append body rest =
    rw (enough body rest, take-length-append body rest, drop-length-append body rest) refl

long_enough : (v : ℕ) (rest : Bytes) → ltb (length (put_u32 v ++ rest)) 4 ≡ false
long_enough v rest = ground (arith, not-short v rest)

word32-put_u32 :
    (body rest : Bytes)
    → length body < 2 ^ 32
    → ltb (length body) 65536 ≡ false
    → word32 (put_u32 (length body % 2 ^ 32) ++ (body ++ rest)) ≡ some (body, rest)
word32-put_u32 body rest h long =
    let same : length body % 2 ^ 32 ≡ length body = omega (arith, h) in
    rw same (
      rw
        (
          long_enough (length body) (body ++ rest),
          get-put_u32 (length body) (body ++ rest) h,
          drop-put_u32 (length body) (body ++ rest),
          long,
        )
        (cut-append body rest))

unpack-pack_length :
    (body rest : Bytes)
    → length body < 2 ^ 32
    → unpack (pack_length (length body) ++ (body ++ rest)) ≡ some (body, rest)
unfolding unpack pack_length
unpack-pack_length body rest h = elim (Bool-cases (ltb (length body) 256)) [
  | inl byte ↦ rw (byte, small (length body) byte) (cut-append body rest)
  | inr more ↦ elim (Bool-cases (ltb (length body) 65536)) [
    | inl word ↦ rw (more, word) (rw (halves (length body) word, more) (cut-append body rest))
    | inr long ↦ rw (more, long) (word32-put_u32 body rest h long)
  ]
]

packed-unpack :
    (is_print : ℕ → Bool) (body rest : Bytes)
    → length body < 2 ^ 32
    → unpack (print_msg is_print msgpack body ++ rest) ≡ some (body, rest)
unfolding print_msg
packed-unpack is_print body rest h =
    rw (append_assoc (pack_length (length body)) body rest) (unpack-pack_length body rest h)

-- What is printed in the format "msgpack" for any messages below 4 GB is the sequence of their bodies as
-- binary objects, each of the shortest type that holds its length, and nothing more: a reader that refuses
-- longer types and leftovers gets the bodies back.
pub unpacked-print_all :
    (is_print : ℕ → Bool) (bodies : List Bytes)
    → All (λ body. length body < 2 ^ 32) bodies
    → read_all unpack (length bodies) (print_all is_print msgpack bodies) ≡ some bodies
unpacked-print_all is_print =
    read_all-print_all unpack is_print msgpack (λ body. length body < 2 ^ 32)
      (packed-unpack is_print)
