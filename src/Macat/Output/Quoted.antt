-- ===== src/Macat/Output/Quoted.antt =====
-- The output in the format "quoted" can be read back.
use mangos_v.Prelude.{
  ℕ, ◌≡◌, refl, ◌+◌, ◌-◌, ◌*◌, ◌/◌, ◌%◌, Bool, false, Option, none, some, List, [], ◌∷◌, ◌++◌,
  arith, ltb, ◌==◌, if◌then◌else◌, All, length, Bool-cases, ==_iff, ap, inl, inr,
}
use mathlib.Core.List.{append_assoc}
use mangos_v.Prelude.Bytes.{Bytes, IsByte}
use mangos_v.Macat.Output.Streams.{read_all, read_all-print_all}
use mangos_v.Macat.Output.{hex, print_all, print_msg, quote, quote_byte, quoted}

-- A reader of quoted lines: between bytes, after a backslash, or within a hexadecimal number.
pub data Mode : Type 0 where
  plain escaped high : Mode
  low : ℕ → Mode

pub data Move : Type 0 where
  ends fails : Move
  goes : Mode → Move
  yields : ℕ → Move

abbrev digit : ℕ → ℕ
digit c = if ltb c 58 then c - 48 else c - 87

abbrev move : Mode → ℕ → Move
move plain c = if c == b'\n' then ends else if c == b'\\' then goes escaped else yields c
move escaped c =
    if c == b'n'
    then yields b'\n'
    else if c == b'r'
    then yields b'\r'
    else if c == b'\\'
    then yields b'\\'
    else if c == b'"'
    then yields b'"'
    else if c == b'x'
    then goes high
    else fails
move high c = goes (low (digit c))
move (low h) c = yields (16 * h + digit c)

abbrev with_byte : ℕ → Option (Bytes × Bytes) → Option (Bytes × Bytes)
with_byte b none = none
with_byte b (some (line, rest)) = some (b ∷ line, rest)

-- The bytes of a line, and what follows it.
unfoldable pub read_line : Mode → Bytes → Option (Bytes × Bytes)
read_line mode [] = none
read_line mode (c ∷ text) = elim (move mode c) [
  | ends ↦ some ([], text)
  | fails ↦ none
  | goes mode' ↦ read_line mode' text
  | yields b ↦ with_byte b (read_line plain text)
]

read_line-plain :
    (b : ℕ) (text : Bytes)
    → (b == b'\n') ≡ false
    → (b == b'\\') ≡ false
    → read_line plain (b ∷ text) ≡ with_byte b (read_line plain text)
unfolding read_line
read_line-plain b text not_newline not_escape = ground arith

hex_pair : (b : ℕ) → IsByte b → 16 * digit (hex (b / 16)) + digit (hex (b % 16)) ≡ b
hex_pair b h = ground arith

read_line-quote_byte :
    (is_print : ℕ → Bool) (b : ℕ) (text : Bytes)
    → IsByte b
    → read_line plain (quote_byte is_print b ++ text) ≡ with_byte b (read_line plain text)
unfolding read_line quote_byte
read_line-quote_byte is_print b text h = elim (Bool-cases (b == b'\n')) [
  | inl e ↦ rw ((==_iff b b'\n').0 e) refl
  | inr not_newline ↦ elim (Bool-cases (b == b'\r')) [
    | inl e ↦ rw ((==_iff b b'\r').0 e) refl
    | inr not_return ↦ elim (Bool-cases (b == b'\\')) [
      | inl e ↦ rw ((==_iff b b'\\').0 e) refl
      | inr not_escape ↦ elim (Bool-cases (b == b'"')) [
        | inl e ↦ rw ((==_iff b b'"').0 e) refl
        | inr not_quote ↦ elim (Bool-cases (is_print b)) [
          | inl printable ↦
              rw (not_newline, not_return, not_escape, not_quote, printable)
                (read_line-plain b text not_newline not_escape)
          | inr hidden ↦
              rw (not_newline, not_return, not_escape, not_quote, hidden)
                (ap (λ v. with_byte v (read_line plain text)) (hex_pair b h))
        ]
      ]
    ]
  ]
]

read_line-quote :
    (is_print : ℕ → Bool) (body text : Bytes)
    → All IsByte body
    → read_line plain (quote is_print body ++ b'\n' ∷ text) ≡ some (body, text)
unfolding read_line quote
read_line-quote is_print [] text h = refl
read_line-quote is_print (b ∷ body) text h =
    rw
      (
        append_assoc (quote_byte is_print b) (quote is_print body) (b'\n' ∷ text),
        read_line-quote_byte is_print b (quote is_print body ++ b'\n' ∷ text) h.0,
        read_line-quote is_print body text h.1,
      )
      refl

quoted-read_line :
    (is_print : ℕ → Bool) (body rest : Bytes)
    → All IsByte body
    → read_line plain (print_msg is_print quoted body ++ rest) ≡ some (body, rest)
unfolding print_msg
quoted-read_line is_print body rest h =
    rw (append_assoc (quote is_print body) (b'\n' ∷ []) rest) (read_line-quote is_print body rest h)

-- Whichever bytes count as printable: what is printed in the format "quoted" for any messages is read back,
-- a line for each message.
pub read_lines-print_all :
    (is_print : ℕ → Bool) (bodies : List Bytes)
    → All (All IsByte) bodies
    → read_all (read_line plain) (length bodies) (print_all is_print quoted bodies) ≡ some bodies
read_lines-print_all is_print =
    read_all-print_all (read_line plain) is_print quoted (All IsByte) (quoted-read_line is_print)
