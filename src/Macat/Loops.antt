-- ===== src/Macat/Loops.antt =====
-- macat/macat.go: the loops, over the results of the calls of `RecvMsg` and `SendMsg`, in their order.
-- The sleeps between the turns are left out.
use mangos_v.Prelude.{
  ℕ, ◌≡◌, refl, ap, ◌<◌, ◌^◌, Bool, ◌||◌, Option, none, some, List, [], ◌∷◌, ◌++◌, map, All, length,
  if◌then◌else◌,
}
use mangos_v.Prelude.Bytes.{Bytes, IsByte}
use mangos_v.Prelude.Int.{ℤ, pos, ltb_ℤ}
use mangos_v.Errors.{Error, Result, err, ok, proto_state, recv_timeout}
use mangos_v.Macat.Output.{Format, msgpack, print_all, print_msg, quoted}
use mangos_v.Macat.Output.Streams.{read_all}
use mangos_v.Macat.Output.Quoted.{read_line, plain, read_lines-print_all}
use mangos_v.Macat.Output.Packed.{unpack, unpacked-print_all}

-- A loop still waits, returns, or ends the program with a fatal message.
pub data Ended : Type 0 where
  waits returns no_data : Ended
  fatal_error : Error → Ended

-- What a loop sends and writes, and how it ends.
pub record Run : Type 0 where
  pub sent : List Bytes
  pub written : Bytes
  pub ended : Ended

abbrev ends_with : Ended → Run
ends_with e = record { sent = []; written = []; ended = e }

abbrev writes : Bytes → Run → Run
writes text r = record r { written = text ++ r.written }

abbrev sends : Bytes → Run → Run
sends body r = record r { sent = body ∷ r.sent }

-- The errors on which `recvLoop` and `replyLoop` return.
abbrev pub recv_end : Error → Ended
recv_end proto_state = returns
recv_end recv_timeout = returns
recv_end e = fatal_error e

abbrev reply_end : Error → Ended
reply_end recv_timeout = returns
reply_end e = fatal_error e

module _ (is_print : ℕ → Bool) (f : Format) where
  unfoldable pub recv_loop : List (Result Bytes) → Run
  recv_loop [] = ends_with waits
  recv_loop (ok body ∷ more) = writes (print_msg is_print f body) (recv_loop more)
  recv_loop (err e ∷ more) = ends_with (recv_end e)

  -- `replyLoop` with something to send: each message received, and the result of the answer to it.
  unfoldable pub replies : Bytes → List (Result Bytes × Option Error) → Run
  replies text [] = ends_with waits
  replies text ((err e, _) ∷ more) = ends_with (reply_end e)
  replies text ((ok body, none) ∷ more) =
      writes (print_msg is_print f body) (sends text (replies text more))
  replies text ((ok body, some e) ∷ more) =
      writes (print_msg is_print f body) (ends_with (fatal_error e))

  unfoldable pub reply_loop : Option Bytes → List (Result Bytes × Option Error) → Run
  unfolding replies
  reply_loop none events = ends_with no_data
  reply_loop (some text) events = replies text events

  -- A turn of `sendRecvLoop` with an interval: the result of the sending, and then of the receiving.
  unfoldable pub exchanges : Bytes → List (Option Error × Result Bytes) → Run
  exchanges text [] = ends_with waits
  exchanges text ((some e, _) ∷ more) = ends_with (fatal_error e)
  exchanges text ((none, ok body) ∷ more) =
      sends text (writes (print_msg is_print f body) (exchanges text more))
  exchanges text ((none, err recv_timeout) ∷ more) = sends text (exchanges text more)
  exchanges text ((none, err e) ∷ more) = sends text (ends_with (fatal_error e))

  -- With no interval, one message is sent, and the receiving loop follows.
  abbrev then_receives : Bytes → Option Error → List (Result Bytes) → Run
  then_receives text (some e) results = ends_with (fatal_error e)
  then_receives text none results = sends text (recv_loop results)

  unfoldable pub send_recv_loop :
      Bytes → ℤ → Option Error → List (Result Bytes) → List (Option Error × Result Bytes) → Run
  unfolding exchanges
  send_recv_loop text interval first results turns =
      if ltb_ℤ interval (pos 0) then then_receives text first results else exchanges text turns

-- `sendLoop`: the results of the sendings, in their order.
unfoldable pub repeats : Bytes → Bool → List (Option Error) → Run
repeats text once [] = ends_with waits
repeats text once (some e ∷ more) = ends_with (fatal_error e)
repeats text once (none ∷ more) =
    let rest = repeats text once more in sends text (if once then ends_with returns else rest)

unfoldable pub send_loop : Option Bytes → ℤ → List (Option Error) → Run
unfolding repeats
send_loop none interval results = ends_with no_data
send_loop (some text) interval results = repeats text (ltb_ℤ interval (pos 0)) results

-- Whether `sendRecvLoop` sets the receive deadline to the interval.
unfoldable pub sets_deadline : ℤ → ℤ → Bool
sets_deadline timeout interval = ltb_ℤ timeout (pos 0) || ltb_ℤ interval timeout

recv_loop-prints :
    (is_print : ℕ → Bool) (f : Format) (bodies : List Bytes) (e : Error)
    (more : List (Result Bytes))
    → recv_loop is_print f (map ok bodies ++ err e ∷ more)
      ≡ record { sent = []; written = print_all is_print f bodies; ended = recv_end e }
unfolding recv_loop
recv_loop-prints is_print f [] e more = refl
recv_loop-prints is_print f (body ∷ bodies) e more =
    ap (writes (print_msg is_print f body)) (recv_loop-prints is_print f bodies e more)

-- The receiving loop in the format "quoted", whichever bytes count as printable: what it writes up to the first
-- error, a line for each message, can be read back as the messages received, and it sends nothing. It
-- returns on a timeout and on a protocol state error, and any other error is fatal.
pub recv_loop-quoted :
    (is_print : ℕ → Bool) (bodies : List Bytes) (e : Error) (more : List (Result Bytes))
    → All (All IsByte) bodies
    → let r = recv_loop is_print quoted (map ok bodies ++ err e ∷ more) in
      (read_all (read_line plain) (length bodies) r.written ≡ some bodies)
      × (r.sent ≡ [])
      × (r.ended ≡ recv_end e)
recv_loop-quoted is_print bodies e more h =
    rw (recv_loop-prints is_print quoted bodies e more)
      (read_lines-print_all is_print bodies h, refl, refl)

-- The receiving loop in the format "msgpack", with messages below 4 GB: what it writes up to the first error is a sequence of binary objects,
-- each of type bin 8 below 256 bytes, bin 16 below 65536 and bin 32 from there, with nothing after them: a reader `unpack` that refuses a type which is not the one
-- for the length gets the messages received. It sends nothing, and ends as the error says.
pub recv_loop-packed :
    (is_print : ℕ → Bool) (bodies : List Bytes) (e : Error) (more : List (Result Bytes))
    → All (λ body. length body < 2 ^ 32) bodies
    → let r = recv_loop is_print msgpack (map ok bodies ++ err e ∷ more) in
      (read_all unpack (length bodies) r.written ≡ some bodies)
      × (r.sent ≡ [])
      × (r.ended ≡ recv_end e)
recv_loop-packed is_print bodies e more h =
    rw (recv_loop-prints is_print msgpack bodies e more)
      (unpacked-print_all is_print bodies h, refl, refl)
