-- ===== src/Tests/MacatTests.antt =====
-- macat at concrete inputs.
use mangos_v.Prelude.{
  length, ◌≡◌, refl, true, false, none, some, List, [], ◌∷◌, ◌++◌, map, All, arith, In, ltb,
}
use mangos_v.Prelude.Bytes.{Bytes, Slice}
use mangos_v.Prelude.Strings.{has_prefix, index}
use mangos_v.Errors.{err, ok, recv_timeout}
use mangos_v.Peers.{req}
use mangos_v.Macat.Output.{msgpack, quoted}
use mangos_v.Macat.Output.Streams.{read_all}
use mangos_v.Macat.Output.Quoted.{read_line, plain}
use mangos_v.Macat.Output.Packed.{unpack}
use mangos_v.Macat.Settings.{Flag, Settings, at_start, parse}
use mangos_v.Macat.Plan.{main}
use mangos_v.Macat.Verified.{IsSafe, main-IsSafe}
use mangos_v.Macat.Loops.{recv_loop, recv_loop-packed, returns}
use mangos_v.Macat.Topics.{Picks, calls_for, heard, recv_loop-topics, results_of, sub_operations}
use mangos_v.Core.{RecvCase, Socket, new_socket, recv_msg}
use mangos_v.Sub.{Sub}
use mangos_v.Message.{Message}
use mangos_v.Prelude.Int.{pos}
use mangos_v.Macat.Settings as Given

-- "tls://a".
abbrev secure : Bytes
secure = b't' ∷ b'l' ∷ b's' ∷ b':' ∷ b'/' ∷ b'/' ∷ b'a' ∷ []

abbrev line : List Flag
line = Given.socket_type req ∷ Given.connect secure ∷ Given.insecure ∷ []

abbrev told : Settings
told = record at_start { kind = some req; dial_addrs = secure ∷ []; no_verify_tls = true }

parsed : Given.parse line at_start ≡ some told
unfolding Given.parse Given.set_flag Given.add_dial Given.set_socket index has_prefix
parsed = refl

main-IsSafe_example : All (IsSafe (In Given.insecure line)) (main false (λ c. none) told).0
main-IsSafe_example = main-IsSafe line told false (λ c. none) parsed

-- Two messages: a quote and a byte that is not printed as itself, and an empty one.
abbrev bodies : List Bytes
bodies = (b'"' ∷ 200 ∷ []) ∷ [] ∷ []

recv_loop-packed_example :
    let r = recv_loop (λ b. ltb b 127) msgpack (map ok bodies ++ err recv_timeout ∷ []) in
    (read_all unpack 2 r.written ≡ some bodies) × (r.sent ≡ []) × (r.ended ≡ returns)
recv_loop-packed_example =
    recv_loop-packed (λ b. ltb b 127) bodies recv_timeout [] (omega arith, (omega arith, tt))

-- A SUB socket with one subscription, and a deadline for receiving.
abbrev listening : Socket Sub
listening =
    record (new_socket (record {
      sock = record { recverr = none; senderr = none };
      subs = (b'a' ∷ []) ∷ [];
      raw = false;
    })) { rdeadline = pos 5 }

abbrev posted : Bytes → Message
posted body = record { header = Slice.nil; body = body; port = none; expire = none }

abbrev news : List Message
news = posted (b'a' ∷ b'1' ∷ []) ∷ posted (b'b' ∷ []) ∷ []

recv_loop-topics_example :
    let q = listening.urq in
    let queued : Socket Sub = record listening {
      urq = record q { items = heard listening.proto news };
    } in
    let calls = calls_for (heard listening.proto news) (RecvCase.expires ∷ []) in
    let r = recv_loop (λ b. ltb b 127) quoted (results_of sub_operations calls queued) in
    (texts : List Bytes) × Picks listening.proto.subs news texts
    × (read_all (read_line plain) (length texts) r.written ≡ some texts)
    × (r.sent ≡ [])
    × (r.ended ≡ returns)
unfolding new_socket recv_msg
recv_loop-topics_example =
    recv_loop-topics (λ b. ltb b 127) listening news (RecvCase.expires ∷ []) recv_timeout refl
      ((omega arith, (omega arith, tt)), ((omega arith, tt), tt)) refl
