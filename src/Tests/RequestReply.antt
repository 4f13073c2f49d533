-- ===== src/Tests/RequestReply.antt =====
-- REQ, REP and the devices between them at concrete inputs.
use mangos_v.Prelude.{◌≡◌, refl, true, false, none, some, [], ◌∷◌, ◌++◌, arith}
use mangos_v.Req.{Req}
use mangos_v.Req.Calls.{IsWithin, pending, replies, replies-IsWithin, requests}
use mangos_v.Rep.{Rep}
use mangos_v.Backtrace.Paths.{path}
use mangos_v.Route.{Hop}
use mangos_v.Message.{Message}
use mangos_v.Protocol.{ProtocolSocket, set_recv_error, queued}
use mangos_v.Chan.{Chan, offer}
use mangos_v.Prelude.Bytes.{Slice, append, put_u32, slice}
use mangos_v.Prelude.Int.{pos}
use mangos_v.Route.Exchange.{Answers, exchange, exchange-Answers}
use mangos_v.Req.State.{step-IsArmed}
use mangos_v.Route.Trip.{Serves}
use mangos_v.Rep.Safety.{calls-Inv}
use mangos_v.Prelude.Table.{insert, lookup}
use mangos_v.Rep.Reply.{receiver-path, reply-returns, reply_without_request}
use mangos_v.Options.{OptionName, duration}
use mangos_v.Req
use mangos_v.Req.Calls
use mangos_v.Req.State
use mangos_v.Rep
use mangos_v.Rep.Safety
use mangos_v.Rep.Reply

abbrev quiet : ProtocolSocket
quiet = record { recverr = none; senderr = none }

-- A REQ socket whose next identifier is 2³¹ + 5, and a REP socket with the pipe 7.
abbrev asker : Req
asker = record {
  sock = quiet;
  eps = [];
  raw = false;
  retry = pos 60;
  nextid = 5;
  waker = none;
  w = record { cnt = 0 };
  started = false;
  reqmsg = none;
  reqid = 0;
}

abbrev queue : Chan Message
queue = record { cap = 2; items = []; takers = 0; is_closed = false }

abbrev replier : Rep
replier = record {
  sock = quiet;
  eps = (7, queue) ∷ [];
  backtrace = Slice.nil;
  raw = false;
  ttl = 8;
  w = record { cnt = 1 };
}

abbrev hop : Hop
hop = record { front = record replier { raw = true }; back = record asker { raw = true }; pipe = 7 }

abbrev question : Message
question = record { header = slice []; body = 1 ∷ 2 ∷ []; port = none; expire = none }

asked : Req.send_hook asker question ≡ (
  record asker {
    sock = quiet;
    nextid = 6;
    waker = some (pos 60);
    reqid = 2147483653;
    reqmsg = some (record question { header = slice (128 ∷ 0 ∷ 0 ∷ 5 ∷ []) });
  },
  record question { header = slice (128 ∷ 0 ∷ 0 ∷ 5 ∷ []) },
  true,
)
unfolding Req.send_hook Req.next_id put_u32 append set_recv_error
asked = refl

replies-IsWithin_example :
    IsWithin (Calls.replies asker (Calls.sends question ∷ Calls.receives question ∷ [])) (
      Calls.pending asker
      ++ Calls.requests asker (Calls.sends question ∷ Calls.receives question ∷ []))
replies-IsWithin_example =
    Calls.replies-IsWithin asker (Calls.sends question ∷ Calls.receives question ∷ []) refl

-- A new retry time leaves the timer of the request as it is.
abbrev asking : Req
asking = Calls.step asker (Calls.sends question)

step-IsArmed_example :
    let r = State.socket_step asking (State.sets OptionName.retry_time (duration (pos 7))) in
    State.Armed r.reqmsg r.waker (pos 60)
unfolding Calls.step Req.send_hook Req.next_id
step-IsArmed_example =
    State.step-IsArmed asking (State.sets OptionName.retry_time (duration (pos 7))) (pos 60) refl
      (λ e. cc) refl

calls-Inv_example :
    Safety.Inv (Safety.run (Rep.init quiet) (Safety.adds 7 ∷ Safety.removes 7 ∷ [])).0
    × ((Safety.run (Rep.init quiet) (Safety.adds 7 ∷ Safety.removes 7 ∷ [])).1 ≡ false)
calls-Inv_example = Safety.calls-Inv quiet (Safety.adds 7 ∷ Safety.removes 7 ∷ [])

-- A request that came by the pipe 7 and then the pipe 3 of a device.
abbrev request : Message
request = record {
  header = slice [];
  body = path (3 ∷ []) 2147483653 ++ (9 ∷ []);
  port = none;
  expire = none;
}

abbrev arrived : Message
arrived = record {
  header = slice (put_u32 7 ++ (1 ∷ []));
  body = 9 ∷ [];
  port = none;
  expire = none;
}

reply-returns_example :
    let back = record question { header = slice (1 ∷ []) } in
    let (r', request', seen) = Rep.recv_hook replier arrived in
    let (r'', reply', sent) = Rep.send_hook r' question in
    (seen ≡ true)
    × (request'.body ≡ 9 ∷ [])
    × (sent ≡ true)
    × (Rep.sender r'' reply' ≡ (
      record r'' { eps = insert 7 (record queue { items = back ∷ [] }) r''.eps },
      queued 7 back,
    ))
reply-returns_example =
    Reply.reply-returns replier 7 (1 ∷ []) arrived question queue
      (record queue { items = record question { header = slice (1 ∷ []) } ∷ [] }) refl (omega arith)
      refl (unfold lookup in refl) (unfold offer in refl)

hop-Serves : Serves hop
unfolding lookup
hop-Serves = record {
  front_raw = refl;
  back_raw = refl;
  pipe_id = omega arith;
  queue = queue;
  known = refl;
  is_open = refl;
  room = refl;
}

replier-Answers : Answers replier 7 1
unfolding lookup
replier-Answers = record {
  cooked = refl;
  pipe_id = omega arith;
  near = omega arith;
  queue = queue;
  known = refl;
  is_open = refl;
  room = refl;
}

exchange-Answers_example :
    exchange asker (hop ∷ []) replier 7 (1 ∷ 2 ∷ []) (3 ∷ []) ≡ some (1 ∷ 2 ∷ [], 3 ∷ [])
exchange-Answers_example =
    exchange-Answers asker (hop ∷ []) replier 7 (1 ∷ 2 ∷ []) (3 ∷ []) refl (hop-Serves, tt)
      (omega arith) replier-Answers
