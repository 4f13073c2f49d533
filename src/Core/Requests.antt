-- ===== src/Core/Requests.antt =====
-- A request and its reply at the socket: `SendMsg` and `RecvMsg` over the hooks of REQ.
use mangos_v.Prelude.{
  ℕ, suc, ◌≡◌, refl, ap, Bool, true, false, none, some, List, [], ◌∷◌, ◌++◌, arith, ◌==◌, length,
  All,
}
use mangos_v.Core.Receiving.{Refuses, arrivals, recv_msg-first}
use mangos_v.Prelude.Bytes.{Bytes, bytes, get-put_u32, get_u32, not-short, put_u32}
use mangos_v.Errors.{Error, proto_state}
use mangos_v.Message.{Message}
use mangos_v.Core.{
  Operations, RecvCase, Socket, accepted, failed_recv, message, queues, recv_msg, send_msg, Got,
}
use mangos_v.Req.{Req}
use mangos_v.Chan.{has_room}
use mangos_v.Req.Identifiers.{next_id-IsRequestId}
use mangos_v.Core.Sending.{after_send, send_msg_room}
use mangos_v.Req.State.{recv_hook-send_hook}
use mangos_v.Req

abbrev pub req_operations : Operations Req
req_operations = record {
  sock = λ r. r.sock;
  set_option = Req.set_option;
  get_option = Req.get_option;
  send_hook = some Req.send_hook;
  recv_hook = some Req.recv_hook;
  add_endpoint = Req.add_endpoint;
  remove_endpoint = λ id r. (Req.remove_endpoint id r).0;
  shutdown = λ r. r;
}

-- The message does not start with that identifier.
abbrev pub IsOther : ℕ → Message → Type 0
IsOther id m = (get_u32 (bytes m.header) == id) ≡ false

send_hook-quiet :
    (r : Req) (m : Message) → r.raw ≡ false → (Req.send_hook r m).0.sock.recverr ≡ none
unfolding Req.send_hook
send_hook-quiet r m cooked = rw cooked refl

pub send_hook-passes : (r : Req) (m : Message) → r.raw ≡ false → (Req.send_hook r m).2 ≡ true
unfolding Req.send_hook
send_hook-passes r m cooked = rw cooked refl

send_hook-Refuses :
    (r : Req) (m x : Message)
    → r.raw ≡ false
    → IsOther (Req.next_id r).0 x
    → Refuses req_operations (Req.send_hook r m).0 x
unfolding Req.send_hook Req.recv_hook
send_hook-Refuses r m x cooked other = rw cooked (ground arith)

All-Refuses :
    (r : Req) (m : Message) (xs : List Message)
    → r.raw ≡ false
    → All (IsOther (Req.next_id r).0) xs
    → All (Refuses req_operations (Req.send_hook r m).0) xs
All-Refuses r m [] cooked others = tt
All-Refuses r m (x ∷ xs) cooked others =
    (send_hook-Refuses r m x cooked others.0, All-Refuses r m xs cooked others.1)

-- The state in which the reply leaves REQ.
recv_hook-ends :
    (r : Req) (m reply : Message) (rest : Bytes)
    → r.raw ≡ false
    → bytes reply.header ≡ put_u32 (Req.next_id r).0 ++ rest
    → (Req.recv_hook (Req.send_hook r m).0 reply).0.sock.recverr ≡ some proto_state
unfolding Req.send_hook Req.recv_hook
recv_hook-ends r m reply rest cooked e =
    rw (cooked, e)
      (ground (
        arith,
        get-put_u32 (Req.next_id r).0 rest,
        not-short (Req.next_id r).0 rest,
        next_id-IsRequestId r,
      ))

pub fails_at_once :
    {S : Type 0} (P : Operations S) (cs : List RecvCase) (s : Socket S) (e : Error)
    → (P.sock s.proto).recverr ≡ some e
    → recv_msg P cs s ≡ (s, failed_recv e)
unfolding recv_msg
fails_at_once P [] s e h = rw (h, recv_msg) refl
fails_at_once P (c ∷ cs) s e h = rw (h, recv_msg) refl

rebuilt : (x : Req × Message × Bool) (m : Message) (b : Bool) → x.1 ≡ m → x.2 ≡ b → x ≡ (x.0, m, b)
rebuilt x m b e f = rw (← e, ← f) refl

-- On a cooked REQ socket with no error to report and room in its open send queue: the request is
-- queued; `RecvMsg` then passes over the messages that do not answer it, returns the one that does,
-- and leaves the later ones; and the next `RecvMsg` fails with a protocol state error, whatever comes.
pub request-answered :
    (now : ℕ) (s : Socket Req) (m reply : Message) (stale later_ones : List Message) (tail : Bytes)
    (cs : List RecvCase)
    → s.proto.raw ≡ false
    → s.proto.sock.senderr ≡ none
    → s.uwq.is_closed ≡ false
    → has_room s.uwq ≡ true
    → All (IsOther (Req.next_id s.proto).0) stale
    → bytes reply.header ≡ put_u32 (Req.next_id s.proto).0 ++ tail
    → let (s1, sent) = send_msg req_operations now queues m s in
      let q = s1.urq in
      let arrived : Socket Req = record s1 {
        urq = record q { items = stale ++ (reply ∷ later_ones) };
      } in
      let (s2, got) = recv_msg req_operations (arrivals (suc (length stale))) arrived in
      (sent ≡ accepted)
      × (got ≡ message reply)
      × (s2.urq.items ≡ later_ones)
      × ((recv_msg req_operations cs s2).1 ≡ failed_recv proto_state)
request-answered now s m reply stale later_ones tail cs cooked fine open_q room others answer =
    let s1 : Socket Req = after_send req_operations now m s in
    let q = s1.urq in
    let arrived : Socket Req = record s1 {
      urq = record q { items = stale ++ (reply ∷ later_ones) };
    } in
    let r1 : Req = (Req.send_hook s.proto m).0 in
    let (accepted_it, same, cleared) = recv_hook-send_hook s.proto m reply tail cooked answer in
    rw (send_msg_room req_operations now m s fine (send_hook-passes s.proto m cooked) open_q room) (
      rw
        (recv_msg-first req_operations arrived stale reply reply later_ones
          (Req.recv_hook r1 reply).0 (send_hook-quiet s.proto m cooked) refl
          (All-Refuses s.proto m stale cooked others)
          (rebuilt (Req.recv_hook r1 reply) reply true same accepted_it))
        (
          refl,
          refl,
          refl,
          ap (λ (x : Socket Req × Got). x.1)
              (fails_at_once req_operations cs _ proto_state
                (recv_hook-ends s.proto m reply tail cooked answer)),
        ))
