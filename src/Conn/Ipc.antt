-- ===== src/Conn/Ipc.antt =====
-- connipc_posix.go: the framing of IPC connections, which put a byte before each length. `Send` does
-- not look at the time to expire, and `Recv` does not look at the byte.
use mangos_v.Prelude.{
  ℕ, zero, suc, ◌+◌, ◌%◌, ◌^◌, ◌<◌, ◌≡◌, refl, ap, false, List, [], ◌∷◌, ◌++◌, map, arith, length,
  All, length-append,
}
use mangos_v.Prelude.Bytes.{Bytes, bytes}
use mangos_v.Errors.{Error, Result, err, ok}
use mangos_v.Message.{Message, wire}
use mangos_v.Conn.{is_too_long, put_u64, recv}
use mangos_v.Prelude.Int.{ℤ}
use mangos_v.Conn.Framing.{recv-framed}
use mathlib.Core.List.{append_assoc}

unfoldable pub send_ipc : Message → Bytes
send_ipc m =
    let l = (length (bytes m.header) + length m.body) % 2 ^ 64 in
    1 ∷ (put_u64 l ++ (bytes m.header ++ m.body))

unfoldable pub recv_ipc : ℤ → Message → Bytes → Result (Message × Bytes)
recv_ipc maxrx blank [] = err Error.foreign
recv_ipc maxrx blank (one ∷ stream) = recv maxrx blank stream

-- The messages that are sent on a connection, one after the other.
abbrev pub send_all : List Message → Bytes
send_all [] = []
send_all (m ∷ ms) = send_ipc m ++ send_all ms

-- As many calls of `Recv`, each with what `NewMessage` gives it, until one fails.
unfoldable pub recv_all : ℤ → Message → ℕ → Bytes → List Message
recv_all maxrx blank zero stream = []
recv_all maxrx blank (suc n) stream = elim (recv_ipc maxrx blank stream) [
  | ok (m, rest) ↦ m ∷ recv_all maxrx blank n rest
  | err e ↦ []
]

-- A message that the receiver takes: its limit, if it has one, is not exceeded.
abbrev pub Fits : ℤ → Message → Type 0
Fits maxrx m =
    (length (bytes m.header) + length m.body < 2 ^ 63)
    × (is_too_long maxrx (length (bytes m.header) + length m.body) ≡ false)

abbrev pub received : Message → Message → Message
received blank m = record blank { body = wire m }

recv_ipc-send_ipc :
    (maxrx : ℤ) (blank m : Message) (rest : Bytes)
    → Fits maxrx m
    → recv_ipc maxrx blank (send_ipc m ++ rest) ≡ ok (received blank m, rest)
unfolding recv_ipc send_ipc wire
recv_ipc-send_ipc maxrx blank m rest (small, fits) =
    let b = bytes m.header ++ m.body in
    let size : length b ≡ length (bytes m.header) + length m.body =
      length-append (bytes m.header) m.body in
    let whole : (length (bytes m.header) + length m.body) % 2 ^ 64 ≡ length b = omega arith in
    rw
      (
        whole,
        append_assoc (put_u64 (length b)) b rest,
        recv-framed maxrx blank b rest (omega arith),
      )
      (rw (size, fits) refl)

-- Where all messages fit the receiver's limit: they are received in the order sent, each with its header
-- and body as the new body.
pub recv_all-send_all :
    (maxrx : ℤ) (blank : Message) (ms : List Message)
    → All (Fits maxrx) ms
    → recv_all maxrx blank (length ms) (send_all ms) ≡ map (received blank) ms
unfolding recv_all
recv_all-send_all maxrx blank [] h = refl
recv_all-send_all maxrx blank (m ∷ ms) h =
    rw (recv_ipc-send_ipc maxrx blank m (send_all ms) h.0, recv_all)
      (ap (◌∷◌ (received blank m)) (recv_all-send_all maxrx blank ms h.1))
