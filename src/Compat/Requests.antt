-- ===== src/Compat/Requests.antt =====
-- A request and its reply over the compatibility layer.
use mangos_v.Prelude.{
  ℕ, suc, ◌≡◌, refl, ap, ◌∙◌, true, false, none, List, [], ◌∷◌, ◌++◌, length, All,
}
use mangos_v.Prelude.Bytes.{Bytes, bytes, put_u32}
use mangos_v.Prelude.Int.{pos, ℤ}
use mangos_v.Chan.{has_room}
use mangos_v.Message.{Message}
use mangos_v.Req.{Req}
use mangos_v.Core.{failed_recv, waiting, Got, Socket, message, queues, recv_msg}
use mangos_v.Core.Receiving.{arrivals}
use mangos_v.Core.Requests.{IsOther, req_operations, request-answered, send_hook-passes}
use mangos_v.Core.Sending.{after_send, send_msg_room}
use mangos_v.Compat.{
  Compat, af_sp, holding, received, received_from, recv, send, set_recv_timeout, set_send_timeout,
  written,
}
use mangos_v.Compat.Timeouts.{LeavesDeadlines, recv-recv_msg, send-send_msg}
use mangos_v.Req

pub req-LeavesDeadlines : LeavesDeadlines req_operations
unfolding Req.set_option
req-LeavesDeadlines = record { leaves_recv = λ v p. refl; leaves_send = λ v p. refl }

-- What `RecvMsg` gives once these messages have come, on the socket that the request leaves.
answer-received :
    (now : ℕ) (s : Socket Req) (m reply : Message) (stale later_ones : List Message) (tail : Bytes)
    → s.proto.raw ≡ false
    → s.proto.sock.senderr ≡ none
    → s.uwq.is_closed ≡ false
    → has_room s.uwq ≡ true
    → All (IsOther (Req.next_id s.proto).0) stale
    → bytes reply.header ≡ put_u32 (Req.next_id s.proto).0 ++ tail
    → let s1 = after_send req_operations now m s in
      let q = s1.urq in
      (recv_msg req_operations
        (arrivals (suc (length stale)))
        (record s1 { urq = record q { items = stale ++ (reply ∷ later_ones) } })).1
      ≡ message reply
answer-received now s m reply stale later_ones tail cooked fine open_q room others answer =
    let (_, got, _, _) =
      request-answered now s m reply stale later_ones tail [] cooked fine open_q room others
        answer in
    rw (send_msg_room req_operations now m s fine (send_hook-passes s.proto m cooked) open_q room)
      at got

abbrev message_or : Message → Got → Message
message_or other (message m) = m
message_or other got = other

received-body :
    (c : Compat Req) (x : Socket Req × Got) (m : Message)
    → c.dom ≡ af_sp
    → x.1 ≡ message m
    → (received_from req_operations c x).1 ≡ received m.body
received-body c (s, message m') m cooked e =
    let same : m' ≡ m = ap (message_or m) e in rw (cooked, same) refl
received-body c (s, failed_recv e') m cooked e = cc
received-body c (s, waiting) m cooked e = cc

timed-dom :
    (c : Compat Req) (d d' : ℤ) (s : Socket Req)
    → (set_recv_timeout d' (record (set_send_timeout d c) { sock = s })).dom ≡ c.dom
unfolding set_send_timeout set_recv_timeout
timed-dom c d d' s = refl

-- On a cooked REQ socket of the compat layer with positive timeouts, no error to report and room in its open send queue:
-- `Send` without flags reports that all its bytes are sent; and `Recv` without flags then passes over the messages
-- that do not answer the request, and gives the body of the one that does.
pub reply-received :
    (now k n : ℕ) (blank reply : Message) (b : Bytes) (c : Compat Req)
    (stale later_ones : List Message) (tail : Bytes)
    → c.dom ≡ af_sp
    → c.sock.proto.raw ≡ false
    → c.sock.proto.sock.senderr ≡ none
    → c.sock.uwq.is_closed ≡ false
    → has_room c.sock.uwq ≡ true
    → All (IsOther (Req.next_id c.sock.proto).0) stale
    → bytes reply.header ≡ put_u32 (Req.next_id c.sock.proto).0 ++ tail
    → let (c1, w) =
        send req_operations now queues blank b (pos 0) (set_send_timeout (pos (suc k)) c) in
      let s = c1.sock in
      let q = s.urq in
      let arrived : Compat Req = record c1 {
        sock = record s { urq = record q { items = stale ++ (reply ∷ later_ones) } };
      } in
      (w ≡ written (length b) none)
      × ((recv req_operations
            (pos 0)
            (arrivals (suc (length stale)))
            (set_recv_timeout (pos (suc n)) arrived)).1
          ≡ received reply.body)
reply-received now k n blank reply b c stale later_ones tail dom cooked fine open_q room others
      answer =
    let m = holding req_operations blank b in
    let s0 : Socket Req = record c.sock { wdeadline = pos (suc k) } in
    let s0' : Socket Req = record c.sock { wdeadline = pos (suc k); rdeadline = pos (suc n) } in
    let got =
      answer-received now s0' m reply stale later_ones tail cooked fine open_q room others answer in
    let cs = arrivals (suc (length stale)) in
    let s1 : Socket Req = after_send req_operations now m s0 in
    let q = s1.urq in
    let s2 : Socket Req = record s1 { urq = record q { items = stale ++ (reply ∷ later_ones) } } in
    let arrived : Compat Req = record (set_send_timeout (pos (suc k)) c) { sock = s2 } in
    rw
      (
        send-send_msg req_operations req-LeavesDeadlines now k queues blank b c,
        send_msg_room req_operations now m s0 fine (send_hook-passes c.sock.proto m cooked) open_q
            room,
      )
      (
        refl,
        ap (λ x. x.1) (recv-recv_msg req_operations req-LeavesDeadlines cs n arrived)
            ∙ received-body (set_recv_timeout (pos (suc n)) arrived)
                (recv_msg req_operations cs (record s2 { rdeadline = pos (suc n) })) reply
                (timed-dom c (pos (suc k)) (pos (suc n)) s2 ∙ dom) got,
      )
