-- ===== src/Surveyor/Surveys.antt =====
-- Surveys: their identifiers, their end, and the references to their messages.
use mangos_v.Prelude.{
  ℕ, ◌+◌, ◌%◌, ◌^◌, ◌<◌, ◌≡◌, refl, true, false, none, some, List, [], ◌∷◌, ◌++◌, arith, ◌==◌,
  if◌then◌else◌, ltb-false, ==_refl, length,
}
use mangos_v.Surveyor.{expire, Surveyor, recv_hook, send_hook, sender, set_option}
use mangos_v.Message.{Message, Counted}
use mangos_v.Prelude.Table.{AllValues}
use mangos_v.Prelude.Bytes.{
  Bytes, bytes, put_u32, set_top, u32, get-put_u32, not-short, skip4, bytes-skip4_word,
}
use mangos_v.Chan.{IsSound}
use mangos_v.Options.{OptionName, Value}
use mangos_v.Fan.{everybody}
use mangos_v.Fan.Laws.{fan_out-serves, held, serve_all}
use mangos_v.Prelude.Int.{ltb_ℤ, pos, ℤ}
use mangos_v.Errors.{proto_state}

abbrev pub IsCounter : Surveyor → Type 0
IsCounter x = x.next_id < 2 ^ 32

-- The state after the surveys `ms`, in order.
unfoldable pub surveys : List Message → Surveyor → Surveyor
surveys [] x = x
surveys (m ∷ ms) x = surveys ms (send_hook x m).0

send_hook-state :
    (x : Surveyor) (m : Message)
    → x.raw ≡ false
    → let x' = (send_hook x m).0 in
      (x'.raw ≡ false) × (x'.survey_id ≡ set_top x.next_id) × (x'.next_id ≡ u32 (x.next_id + 1))
unfolding send_hook
send_hook-state x m cooked = rw cooked (refl, refl, refl)

pub recv_hook-own :
    (x : Surveyor) (answer : Message) (id : ℕ) (rest : Bytes)
    → x.raw ≡ false
    → id < 2 ^ 32
    → bytes answer.header ≡ put_u32 id ++ rest
    → recv_hook x answer ≡ (
        if id == x.survey_id
        then (x, record answer { header = skip4 answer.header }, true)
        else (x, answer, false))
unfolding recv_hook
recv_hook-own x answer id rest cooked small e =
    rw (cooked, e) (rw (ltb-false _ 4 (not-short id rest), get-put_u32 id rest small) refl)

surveys-state :
    (ms : List Message) (x : Surveyor)
    → x.raw ≡ false
    → IsCounter x
    → ((surveys ms x).raw ≡ false) × ((surveys ms x).next_id ≡ (x.next_id + length ms) % 2 ^ 32)
unfolding surveys
surveys-state [] x cooked h = (cooked, omega arith)
surveys-state (m ∷ ms) x cooked h =
    let (cooked', id, next) = send_hook-state x m cooked in
    let (raw', next') = surveys-state ms (send_hook x m).0 cooked' (omega arith) in
    (raw', omega arith)

-- On a cooked socket, an answer whose header starts with the identifier of the latest survey is
-- accepted and loses that word; after one to 2³¹ - 1 more surveys, the same answer is refused.
pub recv_hook-latest :
    (x : Surveyor) (m late answer : Message) (ms : List Message) (rest : Bytes)
    → x.raw ≡ false
    → IsCounter x
    → length ms + 1 < 2 ^ 31
    → bytes answer.header ≡ put_u32 (send_hook x m).0.survey_id ++ rest
    → ((recv_hook (send_hook x m).0 answer).2 ≡ true)
      × (bytes (recv_hook (send_hook x m).0 answer).1.header ≡ rest)
      × ((recv_hook (send_hook (surveys ms (send_hook x m).0) late).0 answer).2 ≡ false)
recv_hook-latest x m late answer ms rest cooked h few e =
    let x1 = (send_hook x m).0 in
    let x2 = surveys ms x1 in
    let (cooked1, id1, next1) = send_hook-state x m cooked in
    let (cooked2, next2) = surveys-state ms x1 cooked1 (omega arith) in
    let (cooked3, id3, next3) = send_hook-state x2 late cooked2 in
    let small : x1.survey_id < 2 ^ 32 = omega arith in
    let other : (x1.survey_id == (send_hook x2 late).0.survey_id) ≡ false = ground arith in
    rw (recv_hook-own x1 answer x1.survey_id rest cooked1 small e) (
      rw (recv_hook-own (send_hook x2 late).0 answer x1.survey_id rest cooked3 small e)
        (rw (==_refl x1.survey_id, other) (refl, bytes-skip4_word answer.header _ rest e, refl)))

-- While the peers' queues are open and within their bounds, and the count cannot overflow: sending
-- a survey does not panic, appends it to the queue of every peer that has room, and adds one
-- reference for each queue that took it, without giving up the sender's own.
pub sender-keeps :
    (x : Surveyor) (m : Counted)
    → AllValues IsSound x.peers
    → m.refcnt + length x.peers < 2 ^ 31
    → let (x', m', bad) = sender x m in
      (bad ≡ false)
      × (x'.peers ≡ serve_all everybody m.msg x.peers)
      × (m'.refcnt + held x.peers ≡ m.refcnt + held x'.peers)
      × (AllValues IsSound x'.peers)
unfolding sender
sender-keeps x m sound few =
    let (calm, all, count, sound', same) = fan_out-serves everybody m x.peers sound (omega arith) in
    (calm, all, count, sound')

-- On a cooked socket with a positive survey time `d`, a survey, then a survey time of zero, then a
-- second survey: the first one's timer is still armed for `d`, and when it fires, `Recv` fails with
-- a protocol state error.
pub unlimited_survey_expires :
    (x : Surveyor) (d : ℤ) (first second : Message)
    → x.raw ≡ false
    → x.survey_time ≡ d
    → ltb_ℤ (pos 0) d ≡ true
    → let x1 = (send_hook x first).0 in
      let x2 = (set_option OptionName.survey_time (Value.duration (pos 0)) x1).0 in
      let x3 = (send_hook x2 second).0 in
      (x3.survey_time ≡ pos 0)
      × (x3.timer ≡ some d)
      × (x3.sock.recverr ≡ none)
      × ((expire x3).sock.recverr ≡ some proto_state)
unfolding send_hook set_option expire
unlimited_survey_expires x d first second cooked time positive =
    rw (cooked, time) (rw positive (refl, refl, refl, refl))
