-- ===== src/Macat/Output.antt =====
-- macat/macat.go, `setFormat` and `printMsg`: how macat prints the messages that it receives. Which
-- codes `strconv.IsPrint` takes as printable is a parameter.
pub mod Streams
pub mod Quoted
pub mod Packed
use mangos_v.Prelude.{
  ℕ, ◌+◌, ◌/◌, ◌%◌, ◌^◌, Bool, Option, none, some, List, [], ◌∷◌, ◌++◌, ltb, ◌==◌, if◌then◌else◌,
  length,
}
use mangos_v.Prelude.Bytes.{Bytes, put_u32}

-- `printFormat`, which is empty at first.
pub data Format : Type 0 where
  unset no raw ascii quoted msgpack : Format

-- `setFormat` of a name, which may stand for no format; `none` is an error.
unfoldable pub set_format : Option Format → Format → Option Format
set_format named unset = named
set_format named f = none

-- `"%02x"`, one digit.
abbrev pub hex : ℕ → ℕ
hex d = if ltb d 10 then 48 + d else 87 + d

-- The format "quoted".
unfoldable pub quote_byte : (ℕ → Bool) → ℕ → Bytes
quote_byte is_print b =
    if b == b'\n'
    then b'\\' ∷ b'n' ∷ []
    else if b == b'\r'
    then b'\\' ∷ b'r' ∷ []
    else if b == b'\\'
    then b'\\' ∷ b'\\' ∷ []
    else if b == b'"'
    then b'\\' ∷ b'"' ∷ []
    else if is_print b
    then b ∷ []
    else b'\\' ∷ b'x' ∷ hex (b / 16) ∷ hex (b % 16) ∷ []

unfoldable pub quote : (ℕ → Bool) → Bytes → Bytes
quote is_print [] = []
quote is_print (b ∷ body) = quote_byte is_print b ++ quote is_print body

-- The format "ascii".
unfoldable pub dotted : (ℕ → Bool) → Bytes → Bytes
dotted is_print [] = []
dotted is_print (b ∷ body) = (if is_print b then b else b'.') ∷ dotted is_print body

-- The length in the format "msgpack"; `byte`, `uint16` and `uint32` cut it off.
unfoldable pub pack_length : ℕ → Bytes
pack_length n =
    if ltb n 256
    then 0xc4 ∷ n % 256 ∷ []
    else if ltb n 65536
    then 0xc5 ∷ n % 2 ^ 16 / 256 ∷ n % 2 ^ 16 % 256 ∷ []
    else 0xc6 ∷ put_u32 (n % 2 ^ 32)

-- `printMsg`: what is written for a message with this body.
unfoldable pub print_msg : (ℕ → Bool) → Format → Bytes → Bytes
unfolding quote dotted pack_length
print_msg is_print unset body = []
print_msg is_print no body = []
print_msg is_print raw body = body
print_msg is_print ascii body = dotted is_print body ++ b'\n' ∷ []
print_msg is_print quoted body = quote is_print body ++ b'\n' ∷ []
print_msg is_print msgpack body = pack_length (length body) ++ body

-- What is written for several messages.
abbrev pub print_all : (ℕ → Bool) → Format → List Bytes → Bytes
print_all is_print f [] = []
print_all is_print f (body ∷ bodies) = print_msg is_print f body ++ print_all is_print f bodies
