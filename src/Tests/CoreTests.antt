-- ===== src/Tests/CoreTests.antt =====
-- The core socket, its pipes and its dialers at concrete inputs.
use mangos_v.Prelude.{
  ℕ, ◌+◌, ◌==◌, Bool, List, ◌≡◌, refl, true, false, ◌&&◌, none, some, [], ◌∷◌, ◌++◌, arith,
}
use mangos_v.Chan.{Chan, IsSound}
use mangos_v.Message.{Message}
use mangos_v.Core.Pipes.{
  Process, admit, announce, close_pipe, close_socket, contains, owns, register,
}
use mangos_v.Protocol.{ProtocolSocket}
use mangos_v.Req.{Req}
use mangos_v.Core.{
  Socket, accepted, closes, failed_recv, message, queues, recv_msg, send_msg, shuts,
}
use mangos_v.Core.Pipes.Histories.{close_socket-releases}
use mangos_v.Core.Pipes.Kept.{Kept, at_rest}
use mangos_v.Core.Pipes.Events.{
  Event, removes_endpoint, unlists_pipe, forgets_pipe, adds, announces, begins_close, closes_next,
  run, shuts_down,
}
use mangos_v.Core.Pipes.Courses.{run-Kept}
use mangos_v.Core.Receiving.{arrivals}
use mangos_v.Redial.Waits.{waits_from-backed_off}
use mangos_v.Redial.{connects, fails, waits_from}
use mangos_v.Core.Pipes.Invariant.{Inv}
use mangos_v.Errors.{closed, proto_state}
use mangos_v.Prelude.Bytes.{get_u32, put_u32, slice}
use mangos_v.Core.Sending.{is_panicking, is_waiting, outgoing, queued_by, send_msg-IsSound}
use mangos_v.Core.Pipes.Late.{late_endpoint}
use mangos_v.Core.Pipes.Hooks.{
  PipeEvent, approvals, comes, goes, one_if, removals, run_hooked, run_hooked-balance,
}
use mangos_v.Prelude.Table.{lookup}
use mangos_v.Prelude.Int.{pos}
use mangos_v.Core.Pipes.Instances.{req_endpoints}
use mangos_v.Core.Requests.{req_operations, request-answered}
use mangos_v.Core
use mangos_v.Req
use mangos_v.Core.Pipes

abbrev core_sock : ProtocolSocket
core_sock = record { recverr = none; senderr = none }

-- A REQ socket whose next identifier is 2³¹ + 5.
abbrev client_protocol : Req
client_protocol = record {
  sock = core_sock;
  eps = [];
  raw = false;
  retry = pos 60;
  nextid = 5;
  waker = none;
  w = record { cnt = 0 };
  started = false;
  reqmsg = none;
  reqid = 0;
}

abbrev open_queue : Chan Message
open_queue = record { cap = 2; items = []; takers = 0; is_closed = false }

abbrev client : Socket Req
client = record {
  proto = client_protocol;
  uwq = open_queue;
  uwq_len = pos 2;
  urq = open_queue;
  urq_len = pos 2;
  is_closing = false;
  active = false;
  best_effort = false;
  rdeadline = pos 0;
  wdeadline = pos 7;
  reconntime = pos 100;
  reconnmax = pos 0;
  linger = pos 0;
  max_rx_size = pos 1024;
  pipes = some [];
}

abbrev word_of : ℕ → Message
word_of id = record { header = slice (put_u32 id ++ []); body = 4 ∷ []; port = none; expire = none }

send_msg-IsSound_example :
    let (s', sent) = Core.send_msg req_operations 3 closes (word_of 9) client in
    (s'.uwq.items ≡ queued_by sent (outgoing req_operations 3 (word_of 9) client) [])
    × IsSound s'.uwq
    × (is_panicking sent ≡ false)
    × ((false && is_waiting sent) ≡ false)
send_msg-IsSound_example =
    send_msg-IsSound req_operations 3 closes (word_of 9) client
      (record { is_open = refl; within = omega arith })

-- A stale reply, then the reply, then another one.
request-answered_example :
    let (s1, sent) = Core.send_msg req_operations 3 queues (word_of 9) client in
    let q = s1.urq in
    let arrived : Socket Req = record s1 {
      urq = record q { items = (word_of 2147483652 ∷ []) ++ (word_of 2147483653 ∷ word_of 1 ∷ []) };
    } in
    let (s2, got) = Core.recv_msg req_operations (arrivals 2) arrived in
    (sent ≡ accepted)
    × (got ≡ message (word_of 2147483653))
    × (s2.urq.items ≡ word_of 1 ∷ [])
    × ((Core.recv_msg req_operations (shuts ∷ []) s2).1 ≡ failed_recv proto_state)
request-answered_example =
    request-answered 3 client (word_of 9) (word_of 2147483653) (word_of 2147483652 ∷ [])
      (word_of 1 ∷ []) [] (shuts ∷ []) refl refl refl refl
      (unfold get_u32 put_u32 Req.next_id in (refl, tt)) (unfold Req.next_id in refl)

abbrev process : Process Req
process = record { pipes = record { byid = []; nextid = 1 }; socket = client }

process-Inv : Inv req_operations req_endpoints process
unfolding lookup Pipes.contains
process-Inv = record { seen = λ j. refl; counted = λ j. refl; nil_when_closing = refl }

-- A pipe is added; the socket is closed before the protocol hears of it, and the pipe after that.
abbrev interleaved : List Event
interleaved =
    adds 3 true none
    ∷ begins_close
    ∷ announces 1
    ∷ shuts_down
    ∷ closes_next
    ∷ removes_endpoint 1
    ∷ unlists_pipe 1
    ∷ forgets_pipe 1
    ∷ []

run-Kept_example :
    Kept req_operations req_endpoints (run req_operations (at_rest process) interleaved)
run-Kept_example = run-Kept req_operations req_endpoints process interleaved process-Inv

close_socket-releases_example :
    let (w', e) = Pipes.close_socket req_operations process in
    (e ≡ none)
    × ((j : ℕ) → (Pipes.owns w' j ≡ false) × (req_endpoints.has w'.socket.proto j ≡ false))
    × (Pipes.close_socket req_operations w' ≡ (w', some closed))
    × (Pipes.admit req_operations true none 1 w' ≡ (Pipes.close_pipe req_operations 1 w', false))
close_socket-releases_example =
    close_socket-releases req_operations req_endpoints process true none 1 process-Inv refl

late_endpoint_example :
    let w' =
      Pipes.announce req_operations 1
        (Pipes.close_pipe req_operations 1 (Pipes.register req_operations 1 [] process)) in
    (req_endpoints.has w'.socket.proto 1 ≡ true)
    × (Pipes.owns w' 1 ≡ false)
    × (Pipes.close_pipe req_operations 1 w' ≡ w')
late_endpoint_example = late_endpoint req_operations req_endpoints process 1 []

waits_from-backed_off_example :
    waits_from (pos 100) (pos 300) (fails ∷ fails ∷ fails ∷ connects ∷ fails ∷ []) (pos 100)
    ≡ pos 100 ∷ pos 200 ∷ pos 300 ∷ pos 100 ∷ pos 200 ∷ []
waits_from-backed_off_example =
    waits_from-backed_off 100 300 0 (fails ∷ fails ∷ fails ∷ connects ∷ fails ∷ []) (omega arith)
      (omega arith) (omega arith)

-- The hook approves of the first identifier only. The pipe that it approves of is closed, and another is refused.
abbrev first_only : ℕ → Bool
first_only id = id == 1

abbrev visitors : List PipeEvent
visitors = comes 3 ∷ goes 1 ∷ comes 3 ∷ []

run_hooked-balance_example :
    let (w', calls) = run_hooked req_operations first_only visitors process in
    approvals 1 calls ≡ removals 1 calls + one_if (owns w' 1)
unfolding lookup
run_hooked-balance_example =
    run_hooked-balance req_operations req_endpoints first_only visitors process refl (λ j. refl) 1
