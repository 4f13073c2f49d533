-- ===== src/Rep/Reply.antt =====
-- What a reply does: it goes back along the path that the request came by.
use mangos_v.Prelude.{
  ℕ, ◌^◌, ◌<◌, ◌≡◌, refl, true, false, none, some, List, ◌++◌, arith, ltb, if◌then◌else◌, length,
  All,
}
use mangos_v.Backtrace.Paths.{path, IsPipeId, IsRequestId, move_backtrace-path}
use mangos_v.Prelude.Bytes.{
  slice, Bytes, append, bytes, put_u32, append_twice, skip4, append-reset, get-put_u32, not-short,
  Slice, reset,
}
use mangos_v.Protocol.{up, stop, deliver, queued, set_send_error, dropped}
use mangos_v.Chan.{taken, Chan, offer}
use mangos_v.Message.{Message, fresh}
use mangos_v.Rep.{Rep, receiver, recv_hook, send_hook, sender, enqueue}
use mangos_v.Prelude.Table.{insert, lookup}
use mangos_v.Errors.{proto_state}

-- Ready to deliver, the receiver delivers a request whose body is a path and a payload exactly if
-- the path has fewer pipe words than the hop limit, with the pipe and the path at the end of the
-- header and the payload as the body; otherwise its goroutine stops.
pub receiver-path :
    (r : Rep) (id : ℕ) (vs : List ℕ) (request : ℕ) (payload : Bytes) (m : Message)
    → All IsPipeId vs
    → IsRequestId request
    → m.body ≡ path vs request ++ payload
    → receiver r id up m ≡ (
        if ltb (length vs) r.ttl
        then deliver
            (record m { header = append m.header (put_u32 id ++ path vs request); body = payload })
        else stop)
unfolding receiver
receiver-path r id vs request payload m hv hr e =
    let moved = move_backtrace-path r.ttl vs request (append m.header (put_u32 id)) payload hv hr in
    ground (arith, moved, append_twice m.header (put_u32 id) (path vs request))

-- `RecvHook` in cooked mode.
received : Rep → Message → Rep
received r m = record r {
  sock = set_send_error none r.sock;
  backtrace = Slice.slice (bytes m.header);
}

recv_hook_cooked :
    (r : Rep) (m : Message)
    → r.raw ≡ false
    → recv_hook r m ≡ (received r m, record m { header = Slice.nil }, true)
unfolding recv_hook received append
recv_hook_cooked r m cooked = rw cooked refl

-- `SendHook` in cooked mode with a path to reply along.
replied : Rep → Rep
replied r = record r { sock = set_send_error (some proto_state) r.sock; backtrace = Slice.nil }

send_hook_cooked :
    (r : Rep) (m : Message) (id : ℕ) (rest : Bytes)
    → r.raw ≡ false
    → bytes r.backtrace ≡ put_u32 id ++ rest
    → send_hook r m ≡ (replied r, record m { header = slice (put_u32 id ++ rest) }, true)
unfolding send_hook replied
send_hook_cooked r m id rest cooked e = rw (cooked, e) (rw (append-reset m.header id rest))

pub sender_known :
    (r : Rep) (m : Message) (id : ℕ) (rest : Bytes) (q q' : Chan Message)
    → id < 2 ^ 32
    → bytes m.header ≡ put_u32 id ++ rest
    → lookup id r.eps ≡ some q
    → offer q (record m { header = skip4 m.header }) ≡ taken q'
    → sender r m
      ≡ (record r { eps = insert id q' r.eps }, queued id (record m { header = skip4 m.header }))
unfolding sender enqueue
sender_known r m id rest q q' small header known room =
    ground (arith, get-put_u32 id rest, not-short id rest)

-- On a cooked socket, receive, reply, send, where the request's header starts with the word of a
-- known pipe whose queue takes the reply: both hooks pass the messages, the request keeps its body,
-- and the reply is queued for that pipe under the rest of the request's header, whatever header the
-- application's message had.
pub reply-returns :
    (r : Rep) (id : ℕ) (rest : Bytes) (request reply : Message) (q q' : Chan Message)
    → r.raw ≡ false
    → id < 2 ^ 32
    → bytes request.header ≡ put_u32 id ++ rest
    → lookup id r.eps ≡ some q
    → offer q (record reply { header = slice rest }) ≡ taken q'
    → let (r', request', seen) = recv_hook r request in
      let (r'', reply', sent) = send_hook r' reply in
      (seen ≡ true)
      × (request'.body ≡ request.body)
      × (sent ≡ true)
      × (sender r'' reply' ≡ (
        record r'' { eps = insert id q' r''.eps },
        queued id (record reply { header = slice rest }),
      ))
unfolding skip4 put_u32
reply-returns r id rest request reply q q' cooked small header known room =
    rw (recv_hook_cooked r request cooked) (
      rw
        (send_hook_cooked (received r request) reply id rest (unfold received in cooked)
          (unfold received in header))
        (
          refl,
          refl,
          refl,
          sender_known _ _ id rest q q' small refl (unfold received replied in known) room,
        ))

-- On a cooked socket with no saved path, `SendHook` lets a reply pass whenever its header is not
-- nil, and the sender drops it.
pub reply_without_request :
    (r : Rep) (reply : Message) (header : Bytes)
    → r.raw ≡ false
    → r.backtrace ≡ Slice.nil
    → reply.header ≡ slice header
    → let (r', reply', sent) = send_hook r reply in
      (sent ≡ true) × (sender r' reply' ≡ (r', dropped))
unfolding send_hook sender append reset
reply_without_request r reply header cooked idle fresh = rw (cooked, idle, fresh) (refl, refl)

-- Raw mode hands messages on as they are.
pub recv_hook_raw : (r : Rep) (m : Message) → r.raw ≡ true → recv_hook r m ≡ (r, m, true)
unfolding recv_hook
recv_hook_raw r m raw_mode = ground arith

pub send_hook_raw : (r : Rep) (m : Message) → r.raw ≡ true → send_hook r m ≡ (r, m, true)
unfolding send_hook
send_hook_raw r m raw_mode = ground arith
