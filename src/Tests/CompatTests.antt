-- ===== src/Tests/CompatTests.antt =====
-- The compatibility layer at concrete inputs.
use mangos_v.Prelude.{ℕ, ◌≡◌, refl, true, false, none, List, [], ◌∷◌, ◌++◌}
use mangos_v.Prelude.Bytes.{Bytes, Slice, get_u32, put_u32, slice}
use mangos_v.Prelude.Int.{pos, negsuc}
use mangos_v.Chan.{make}
use mangos_v.Protocol.{ProtocolSocket, dropped}
use mangos_v.Message.{Message}
use mangos_v.Rep.{Rep}
use mangos_v.Core.{RecvCase, SendCase, Socket, queues, recv_msg}
use mangos_v.Core.Pipes.Instances.{rep_operations}
use mangos_v.Compat.{
  Compat, af_sp, new_socket, opened, panics_receiving, panics_writing, received, recv, send,
  set_recv_timeout, set_send_timeout, written,
}
use mangos_v.Compat.Timeouts.{new_socket-panics}
use mangos_v.Compat.RawReplies.{raw_reply-dropped, rep-LeavesDeadlines}
use mangos_v.Req.{Req}
use mangos_v.Core.Receiving.{arrivals}
use mangos_v.Core.Requests.{req_operations}
use mangos_v.Compat.Requests.{reply-received}
use mangos_v.Core
use mangos_v.Req
use mangos_v.Rep
use mangos_v.Core.Options as Own

abbrev sock0 : ProtocolSocket
sock0 = record { recverr = none; senderr = none }

abbrev raw_replier : Rep
raw_replier = record {
  sock = sock0;
  eps = [];
  backtrace = Slice.nil;
  raw = true;
  ttl = 8;
  w = record { cnt = 0 };
}

abbrev replier : Rep
replier = record raw_replier { raw = false }

abbrev raw_socket : Compat Rep
raw_socket = record { sock = Core.new_socket raw_replier; dom = 1; rto = negsuc 0; sto = negsuc 0 }

abbrev blank : Message
blank = record { header = Slice.nil; body = []; port = none; expire = none }

abbrev made : Compat Rep
made = record {
  sock = record (Core.new_socket replier) { uwq = make 0; uwq_len = pos 0 };
  dom = af_sp;
  rto = negsuc 0;
  sto = negsuc 0;
}

opens : new_socket rep_operations af_sp replier ≡ opened made
unfolding new_socket Own.set_option Rep.set_option Core.new_socket
opens = refl

new_socket-panics_example :
    ((cases : List RecvCase) → (recv rep_operations (pos 0) cases made).1 ≡ panics_receiving)
    × ((now : ℕ) (case : SendCase) (b : Message) (text : Bytes)
        → (send rep_operations now case b text (pos 0) made).1 ≡ panics_writing)
new_socket-panics_example =
    new_socket-panics rep_operations rep-LeavesDeadlines af_sp replier made opens

raw_reply-dropped_example :
    let x =
      send rep_operations 0 queues blank (7 ∷ []) (pos 0) (set_send_timeout (pos 5) raw_socket) in
    (x.1 ≡ written 1 none)
    × ((m : Message) × (x.0.sock.uwq.items ≡ raw_socket.sock.uwq.items ++ (m ∷ []))
        × (m.body ≡ 7 ∷ [])
        × (m.header ≡ slice [])
        × ((r : Rep) → Rep.sender r m ≡ (r, dropped)))
unfolding Core.new_socket
raw_reply-dropped_example = raw_reply-dropped 0 4 blank (7 ∷ []) raw_socket refl refl refl refl

-- A REQ socket whose next identifier is 2³¹ + 5, a late reply and the reply.
abbrev requester : Compat Req
requester = record {
  sock = Core.new_socket (record {
    sock = sock0;
    eps = [];
    raw = false;
    retry = pos 60;
    nextid = 5;
    waker = none;
    w = record { cnt = 0 };
    started = false;
    reqmsg = none;
    reqid = 0;
  });
  dom = af_sp;
  rto = negsuc 0;
  sto = negsuc 0;
}

abbrev reply_of : ℕ → Message
reply_of id = record blank { header = slice (put_u32 id ++ []); body = 4 ∷ [] }

reply-received_example :
    let (c1, w) =
      send req_operations 0 queues blank (7 ∷ []) (pos 0) (set_send_timeout (pos 5) requester) in
    let s = c1.sock in
    let q = s.urq in
    let arrived : Compat Req = record c1 {
      sock = record s {
        urq = record q { items = (reply_of 2147483652 ∷ []) ++ (reply_of 2147483653 ∷ []) };
      };
    } in
    (w ≡ written 1 none)
    × ((recv req_operations (pos 0) (arrivals 2) (set_recv_timeout (pos 6) arrived)).1
        ≡ received (4 ∷ []))
unfolding Core.new_socket get_u32 put_u32 Req.next_id
reply-received_example =
    reply-received 0 4 5 blank (reply_of 2147483653) (7 ∷ []) requester (reply_of 2147483652 ∷ [])
      [] [] refl refl refl refl refl (refl, tt) refl
