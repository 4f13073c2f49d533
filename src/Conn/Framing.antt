-- ===== src/Conn/Framing.antt =====
-- What a connection delivers of what was sent on it.
use mangos_v.Prelude.{
  ℕ, ◌+◌, ◌%◌, ◌^◌, ◌<◌, ◌≡◌, refl, false, ◌++◌, arith, ltb, if◌then◌else◌, ltb-false, length, drop,
  length-append, take-length-append, drop-length-append,
}
use mangos_v.Prelude.Bytes.{Bytes, bytes, get_u32, put_u32}
use mangos_v.Message.{Message, expired, wire}
use mangos_v.Errors.{err, ok, too_long}
use mangos_v.Conn.{get_u64, is_too_long, put_u64, recv, send}
use mangos_v.Prelude.Int.{ℤ}
use mathlib.Core.List.{append_assoc}

get_u64-put_u64 : (n : ℕ) (rest : Bytes) → n < 2 ^ 64 → get_u64 (put_u64 n ++ rest) ≡ n
unfolding get_u64 put_u64 get_u32 put_u32
get_u64-put_u64 n rest h = omega arith

drop-put_u64 : (n : ℕ) (rest : Bytes) → drop 8 (put_u64 n ++ rest) ≡ rest
unfolding put_u64 put_u32
drop-put_u64 n rest = refl

put_u64_long : (n : ℕ) (rest : Bytes) → ltb (length (put_u64 n ++ rest)) 8 ≡ false
unfolding put_u64 put_u32
put_u64_long n rest = ground arith

pub recv-framed :
    (maxrx : ℤ) (blank : Message) (body rest : Bytes)
    → length body < 2 ^ 63
    → recv maxrx blank (put_u64 (length body) ++ (body ++ rest)) ≡ (
        if is_too_long maxrx (length body)
        then err too_long
        else ok (record blank { body = body }, rest))
unfolding recv
recv-framed maxrx blank body rest h = rw (put_u64_long (length body) (body ++ rest)) (
    rw
      (
        get_u64-put_u64 (length body) (body ++ rest) (omega arith),
        drop-put_u64 (length body) (body ++ rest),
      )
      (rw
        (
          ltb-false (length (body ++ rest)) (length body) (omega (arith, length-append body rest)),
          take-length-append body rest,
          drop-length-append body rest,
        )
        refl))

-- A message that is sent before it expires is received with its header and its body as the new body,
-- and what was sent after it is left to read, unless it is longer than the receiver's limit, which
-- is an error.
pub recv-send :
    (maxrx : ℤ) (now : ℕ) (m blank : Message) (rest : Bytes)
    → expired now m ≡ false
    → length (bytes m.header) + length m.body < 2 ^ 63
    → recv maxrx blank (send now m ++ rest) ≡ (
        if is_too_long maxrx (length (bytes m.header) + length m.body)
        then err too_long
        else ok (record blank { body = wire m }, rest))
unfolding send wire
recv-send maxrx now m blank rest live h =
    let b = bytes m.header ++ m.body in
    let size : length b ≡ length (bytes m.header) + length m.body =
      length-append (bytes m.header) m.body in
    let small : (length (bytes m.header) + length m.body) % 2 ^ 64 ≡ length b = omega arith in
    rw (live) (
      rw (small, append_assoc (put_u64 (length b)) b rest, ← size)
        (recv-framed maxrx blank b rest (omega arith)))
