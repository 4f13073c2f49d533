-- ===== src/Conn.antt =====
-- conn.go: messages on a byte stream, each after its length in eight bytes.
pub mod Framing
pub mod Handshake
pub mod Ipc
use mangos_v.Prelude.{
  ℕ, ◌+◌, ◌*◌, ◌/◌, ◌%◌, ◌^◌, Bool, ◌&&◌, ◌||◌, [], ◌++◌, ltb, leb, if◌then◌else◌, length, take,
  drop,
}
use mangos_v.Errors.{too_long, Error, Result, err, ok}
use mangos_v.Prelude.Bytes.{Bytes, bytes, get_u32, put_u32}
use mangos_v.Message.{Message, expired}
use mangos_v.Prelude.Int.{ltb_ℤ, pos, ℤ}

unfoldable pub put_u64 : ℕ → Bytes
put_u64 n = put_u32 (n / 2 ^ 32 % 2 ^ 32) ++ put_u32 (n % 2 ^ 32)

-- The first eight bytes as a word.
unfoldable pub get_u64 : Bytes → ℕ
get_u64 b = get_u32 b * 2 ^ 32 + get_u32 (drop 4 b)

-- `sz < 0 || (p.maxrx > 0 && sz > p.maxrx)`, for the bit pattern of an int64.
abbrev pub is_too_long : ℤ → ℕ → Bool
is_too_long maxrx sz = leb (2 ^ 63) sz || (ltb_ℤ (pos 0) maxrx && ltb_ℤ maxrx (pos sz))

-- `Recv` on what the peer has sent before it stopped sending, with the message that `NewMessage`
-- gives. Reading past the end is an error of the network. With the message, what is left to read.
unfoldable pub recv : ℤ → Message → Bytes → Result (Message × Bytes)
recv maxrx blank stream =
    let sz = get_u64 stream in
    let rest = drop 8 stream in
    if ltb (length stream) 8
    then err Error.foreign
    else if is_too_long maxrx sz
    then err too_long
    else if ltb (length rest) sz
    then err Error.foreign
    else ok (record blank { body = take sz rest }, drop sz rest)

-- `Send` at the time `now`, on a connection whose writes succeed: the bytes written.
unfoldable pub send : ℕ → Message → Bytes
send now m =
    let l = (length (bytes m.header) + length m.body) % 2 ^ 64 in
    if expired now m then [] else put_u64 l ++ (bytes m.header ++ m.body)
