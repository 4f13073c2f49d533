-- ===== src/Core/Surveys.antt =====
-- A survey and its answers at the socket: `SendMsg` and `RecvMsg` over the hooks of SURVEYOR.
use mangos_v.Prelude.{
  ℕ, suc, ◌≡◌, refl, ap, ◌∙◌, ◌^◌, ◌<◌, true, false, none, some, List, [], ◌∷◌, ◌++◌, arith, length,
  All, map, ==_refl,
}
use mangos_v.Prelude.Bytes.{Bytes, bytes, put_u32, set_top, skip4}
use mangos_v.Errors.{proto_state}
use mangos_v.Message.{Message}
use mangos_v.Chan.{has_room}
use mangos_v.Core.{
  Got, Operations, RecvCase, Socket, accepted, failed_recv, message, queues, recv_msg, send_msg,
}
use mangos_v.Core.Receiving.{Refuses, arrivals, recv_msg-first}
use mangos_v.Core.Requests.{IsOther, fails_at_once}
use mangos_v.Core.Sending.{after_send, send_msg_room}
use mangos_v.Surveyor.{Surveyor}
use mangos_v.Surveyor.Surveys.{recv_hook-own}
use mangos_v.Surveyor

abbrev pub surveyor_operations : Operations Surveyor
surveyor_operations = record {
  sock = λ x. x.sock;
  set_option = Surveyor.set_option;
  get_option = Surveyor.get_option;
  send_hook = some Surveyor.send_hook;
  recv_hook = some Surveyor.recv_hook;
  add_endpoint = Surveyor.add_endpoint;
  remove_endpoint = λ id x. (Surveyor.remove_endpoint id x).0;
  shutdown = λ x. (Surveyor.shutdown x).0;
}

-- What comes in for one call of `RecvMsg`: messages that do not answer the survey, and one that does.
abbrev pub Round : Type 0
Round = List Message × Message

abbrev pub incoming : List Round → List Message → List Message
incoming [] later_ones = later_ones
incoming ((stale, answer) ∷ rounds) later_ones = stale ++ (answer ∷ incoming rounds later_ones)

abbrev pub IsRound : ℕ → Round → Type 0
IsRound id (stale, answer) =
    All (IsOther id) stale × ((tail : Bytes) × (bytes answer.header ≡ put_u32 id ++ tail))

-- What the application gets for an answer.
abbrev pub stripped : Round → Got
stripped (stale, answer) = message (record answer { header = skip4 answer.header })

abbrev with_got : Got → Socket Surveyor × List Got → Socket Surveyor × List Got
with_got got (s, gots) = (s, got ∷ gots)

-- One call of `RecvMsg` for each round.
abbrev pub receive : List Round → Socket Surveyor → Socket Surveyor × List Got
receive [] s = (s, [])
receive ((stale, answer) ∷ rounds) s =
    let (s1, got) = recv_msg surveyor_operations (arrivals (suc (length stale))) s in
    with_got got (receive rounds s1)

abbrev with_round : List Round → Socket Surveyor × Got → Socket Surveyor × List Got
with_round rounds (s, got) = with_got got (receive rounds s)

abbrev still_queued : Socket Surveyor → List Message → Socket Surveyor × List Got
still_queued s ms = let q = s.urq in (record s { urq = record q { items = ms } }, [])

recv_hook-Refuses :
    (x : Surveyor) (m : Message)
    → x.raw ≡ false
    → IsOther x.survey_id m
    → Refuses surveyor_operations x m
unfolding Surveyor.recv_hook
recv_hook-Refuses x m cooked other = rw cooked (ground arith)

All-Refuses_survey :
    (x : Surveyor) (ms : List Message)
    → x.raw ≡ false
    → All (IsOther x.survey_id) ms
    → All (Refuses surveyor_operations x) ms
All-Refuses_survey x [] cooked others = tt
All-Refuses_survey x (m ∷ ms) cooked others =
    (recv_hook-Refuses x m cooked others.0, All-Refuses_survey x ms cooked others.1)

recv_hook-answer :
    (x : Surveyor) (answer : Message) (tail : Bytes)
    → x.raw ≡ false
    → x.survey_id < 2 ^ 32
    → bytes answer.header ≡ put_u32 x.survey_id ++ tail
    → Surveyor.recv_hook x answer ≡ (x, record answer { header = skip4 answer.header }, true)
recv_hook-answer x answer tail cooked small e =
    rw (recv_hook-own x answer x.survey_id tail cooked small e, ==_refl x.survey_id) refl

-- The calls of `RecvMsg` while the survey runs.
receive-rounds :
    (rounds : List Round) (later_ones : List Message) (s : Socket Surveyor)
    → s.proto.raw ≡ false
    → s.proto.sock.recverr ≡ none
    → s.proto.survey_id < 2 ^ 32
    → s.urq.items ≡ incoming rounds later_ones
    → All (IsRound s.proto.survey_id) rounds
    → let q = s.urq in
      receive rounds s ≡ (record s { urq = record q { items = later_ones } }, map stripped rounds)
receive-rounds [] later_ones s cooked quiet small items h = ap (still_queued s) items
receive-rounds ((stale, answer) ∷ rounds) later_ones s cooked quiet small items h =
    let q = s.urq in
    let (others, (tail, e)) = h.0 in
    let first =
      recv_msg-first surveyor_operations s stale answer
        (record answer { header = skip4 answer.header }) (incoming rounds later_ones) s.proto quiet
        items (All-Refuses_survey s.proto stale cooked others)
        (recv_hook-answer s.proto answer tail cooked small e) in
    ap (with_round rounds) first
    ∙ ap (with_got (stripped (stale, answer))) (
        receive-rounds rounds later_ones
          (record s { urq = record q { items = incoming rounds later_ones } }) cooked quiet small
          refl h.1)

surveys_quiet :
    (x : Surveyor) (m : Message)
    → x.raw ≡ false
    → let (x1, m1, passed) = Surveyor.send_hook x m in
      (x1.raw ≡ false)
      × (x1.sock.recverr ≡ none)
      × (x1.survey_id ≡ set_top x.next_id)
      × (passed ≡ true)
unfolding Surveyor.send_hook
surveys_quiet x m cooked = rw cooked (refl, refl, refl, refl)

-- On a cooked SURVEYOR socket with no error to report and room in its open send queue: the survey is queued;
-- then each call of `RecvMsg` passes over the messages that do not answer it and returns the next that does,
-- without the identifier in its header, for as many answers as come and in their order; what came
-- later stays; and once the survey's timer has fired, `RecvMsg` fails with a protocol state error, whatever comes.
pub survey-answered :
    (now : ℕ) (s : Socket Surveyor) (m : Message) (rounds : List Round) (later_ones : List Message)
    (cs : List RecvCase)
    → s.proto.raw ≡ false
    → s.proto.sock.senderr ≡ none
    → s.uwq.is_closed ≡ false
    → has_room s.uwq ≡ true
    → All (IsRound (set_top s.proto.next_id)) rounds
    → let (s1, sent) = send_msg surveyor_operations now queues m s in
      let q = s1.urq in
      let arrived : Socket Surveyor = record s1 {
        urq = record q { items = incoming rounds later_ones };
      } in
      let (s2, gots) = receive rounds arrived in
      let expired : Socket Surveyor = record s2 { proto = Surveyor.expire s2.proto } in
      (sent ≡ accepted)
      × (gots ≡ map stripped rounds)
      × (s2.urq.items ≡ later_ones)
      × ((recv_msg surveyor_operations cs expired).1 ≡ failed_recv proto_state)
unfolding Surveyor.expire
survey-answered now s m rounds later_ones cs cooked fine open_q room h =
    let s1 : Socket Surveyor = after_send surveyor_operations now m s in
    let q = s1.urq in
    let arrived : Socket Surveyor = record s1 {
      urq = record q { items = incoming rounds later_ones };
    } in
    let (cooked1, quiet1, id1, passed) = surveys_quiet s.proto m cooked in
    let small : s1.proto.survey_id < 2 ^ 32 = omega (arith, id1) in
    let whole = receive-rounds rounds later_ones arrived cooked1 quiet1 small refl (rw id1 h) in
    rw (send_msg_room surveyor_operations now m s fine passed open_q room) (
      rw whole (
        refl,
        refl,
        refl,
        ap (λ (x : Socket Surveyor × Got). x.1)
            (fails_at_once surveyor_operations cs _ proto_state refl),
      ))
