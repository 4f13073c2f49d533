-- ===== src/Respondent/Reply.antt =====
-- Where the answers of a RESPONDENT go.
use mangos_v.Prelude.{
  ℕ, ◌^◌, ◌<◌, ◌≡◌, refl, true, false, none, some, List, ◌++◌, arith, ltb, ◌==◌, if◌then◌else◌,
  ltb-false, length, All,
}
use mangos_v.Respondent.{Respondent, receiver, recv_hook, send_hook, sender, find_peer, push}
use mangos_v.Message.{Message}
use mangos_v.Chan.{Chan, taken, offer}
use mangos_v.Protocol.{up, deliver, queued, skip, set_send_error}
use mangos_v.Backtrace.Paths.{path, IsPipeId, IsRequestId, move_backtrace-path}
use mangos_v.Prelude.Bytes.{
  Bytes, append, append_twice, bytes, put_u32, reset, slice, Slice, append-reset, get-put_u32,
  not-short, skip4, append-reset_nil,
}
use mangos_v.Prelude.Table.{insert, lookup}
use mangos_v.Errors.{proto_state}

-- Ready to deliver, the receiver delivers a survey whose body is a path and a payload exactly if
-- the path has fewer pipe words than the hop limit, with the pipe and the path at the end of the
-- header and the payload as the body; otherwise it skips the survey.
pub receiver-survey :
    (x : Respondent) (id : ℕ) (vs : List ℕ) (survey : ℕ) (payload : Bytes) (m : Message)
    → All IsPipeId vs
    → IsRequestId survey
    → m.body ≡ path vs survey ++ payload
    → receiver x id up m ≡ (
        if ltb (length vs) x.ttl
        then deliver
            (record m { header = append m.header (put_u32 id ++ path vs survey); body = payload })
        else skip)
unfolding receiver
receiver-survey x id vs survey payload m hv hs e =
    let moved = move_backtrace-path x.ttl vs survey (append m.header (put_u32 id)) payload hv hs in
    ground (arith, moved, append_twice m.header (put_u32 id) (path vs survey))

-- `RecvHook` in cooked mode.
received : Respondent → ℕ → Bytes → Respondent
received x id rest = record x {
  backbuf = reset x.backbuf;
  backtrace = slice (put_u32 id ++ rest);
  sock = set_send_error none x.sock;
}

recv_hook_cooked :
    (x : Respondent) (m : Message) (id : ℕ) (rest : Bytes)
    → x.raw ≡ false
    → bytes m.header ≡ put_u32 id ++ rest
    → recv_hook x m ≡ (received x id rest, m, true)
unfolding recv_hook received
recv_hook_cooked x m id rest cooked e =
    rw (cooked, e) (rw (ltb-false _ 4 (not-short id rest), append-reset x.backbuf id rest) refl)

-- `SendHook` in cooked mode with a path to answer along.
answered : Respondent → Respondent
answered x = record x { sock = set_send_error (some proto_state) x.sock; backtrace = Slice.nil }

send_hook_cooked :
    (x : Respondent) (m : Message) (id : ℕ) (rest : Bytes)
    → x.raw ≡ false
    → bytes x.backtrace ≡ put_u32 id ++ rest
    → send_hook x m ≡ (answered x, record m { header = slice (put_u32 id ++ rest) }, true)
unfolding send_hook answered
send_hook_cooked x m id rest cooked e =
    let long : (length (put_u32 id ++ rest) == 0) ≡ false = ground (arith, not-short id rest) in
    rw (cooked, e) (rw (append-reset m.header id rest, long) refl)

send_hook_idle :
    (x : Respondent) (m : Message)
    → x.raw ≡ false
    → x.backtrace ≡ Slice.nil
    → (send_hook x m).2 ≡ false
unfolding send_hook
send_hook_idle x m cooked idle = rw (cooked, idle) (rw (append-reset_nil m.header) refl)

sender_known :
    (x : Respondent) (m : Message) (id : ℕ) (rest : Bytes) (q q' : Chan Message)
    → id < 2 ^ 32
    → bytes m.header ≡ put_u32 id ++ rest
    → lookup id x.peers ≡ some q
    → offer q (record m { header = skip4 m.header }) ≡ taken q'
    → sender x m ≡ (
      record x { peers = insert id q' x.peers },
      queued id (record m { header = skip4 m.header }),
    )
unfolding sender find_peer push
sender_known x m id rest q q' small header known room =
    ground (arith, get-put_u32 id rest, not-short id rest)

-- On a cooked socket, receive, answer, send, where the survey's header starts with the word of a
-- known pipe whose queue takes the answer: both hooks pass the messages, the answer is queued for
-- that pipe under the rest of the survey's header, and a second answer to the same survey is
-- refused by the hook.
pub answer-returns :
    (x : Respondent) (id : ℕ) (rest : Bytes) (survey answer again : Message) (q q' : Chan Message)
    → x.raw ≡ false
    → id < 2 ^ 32
    → bytes survey.header ≡ put_u32 id ++ rest
    → lookup id x.peers ≡ some q
    → offer q (record answer { header = slice rest }) ≡ taken q'
    → let (x', survey', seen) = recv_hook x survey in
      let (x'', answer', sent) = send_hook x' answer in
      (seen ≡ true)
      × (sent ≡ true)
      × (sender x'' answer' ≡ (
        record x'' { peers = insert id q' x''.peers },
        queued id (record answer { header = slice rest }),
      ))
      × ((send_hook x'' again).2 ≡ false)
unfolding skip4 put_u32
answer-returns x id rest survey answer again q q' cooked small header known room =
    let x' = received x id rest in
    rw (recv_hook_cooked x survey id rest cooked header) (
      rw (send_hook_cooked x' answer id rest (unfold received in cooked) (unfold received in refl))
        (
          refl,
          refl,
          sender_known _ _ id rest q q' small refl (unfold received answered in known) room,
          send_hook_idle (answered x') again (unfold received answered in cooked)
              (unfold received answered in refl),
        ))
