-- ===== src/Tests/SurveyTests.antt =====
-- SURVEYOR and RESPONDENT at concrete inputs.
use mangos_v.Prelude.{ℕ, ◌≡◌, refl, true, false, none, [], ◌∷◌, ◌++◌, arith}
use mangos_v.Protocol.{ProtocolSocket, queued}
use mangos_v.Respondent.Race.{waiting, finds, removes, closes, pushes, System, removal_panics, run}
use mangos_v.Prelude.Table.{insert, lookup}
use mangos_v.Chan.{Chan, offer}
use mangos_v.Message.{Counted, Message}
use mangos_v.Respondent.{Respondent}
use mangos_v.Prelude.Bytes.{Slice, bytes, put_u32, slice}
use mangos_v.Surveyor.{Surveyor}
use mangos_v.Respondent.Reply.{answer-returns}
use mangos_v.Backtrace.Paths.{path}
use mangos_v.Prelude.Int.{pos}
use mangos_v.Surveyor.Surveys.{recv_hook-latest, surveys}
use mangos_v.Surveyor
use mangos_v.Respondent

abbrev survey_socket : ProtocolSocket
survey_socket = record { recverr = none; senderr = none }

abbrev poll : Message
poll = record { header = slice []; body = 1 ∷ 2 ∷ []; port = none; expire = none }

abbrev idle_queue : Chan Message
idle_queue = record { cap = 1; items = []; takers = 0; is_closed = false }

abbrev asking : Surveyor
asking = record {
  sock = survey_socket;
  peers = (7, idle_queue) ∷ [];
  raw = false;
  next_id = 5;
  survey_id = 0;
  survey_time = pos 60;
  timer = none;
  w = record { cnt = 1 };
  ttl = pos 0;
}

abbrev answer_to : ℕ → Message
answer_to id = record poll { header = slice (put_u32 id ++ (9 ∷ [])) }

recv_hook-latest_example :
    ((Surveyor.recv_hook (Surveyor.send_hook asking poll).0 (answer_to 2147483653)).2 ≡ true)
    × (bytes (Surveyor.recv_hook (Surveyor.send_hook asking poll).0 (answer_to 2147483653)).1.header
        ≡ 9 ∷ [])
    × ((Surveyor.recv_hook
          (Surveyor.send_hook (surveys (poll ∷ []) (Surveyor.send_hook asking poll).0) poll).0
          (answer_to 2147483653)).2
        ≡ false)
recv_hook-latest_example =
    recv_hook-latest asking poll poll (answer_to 2147483653) (poll ∷ []) (9 ∷ []) refl (omega arith)
      (omega arith) (unfold Surveyor.send_hook in refl)

abbrev counted_poll : Counted
counted_poll = record { msg = poll; bsize = 64; refcnt = 1 }

abbrev answering : Respondent
answering = record {
  sock = survey_socket;
  peers = (7, idle_queue) ∷ [];
  raw = false;
  ttl = 8;
  backbuf = slice [];
  backtrace = Slice.nil;
  w = record { cnt = 1 };
}

abbrev surveyed : Message
surveyed = record poll { body = path (3 ∷ []) 2147483653 ++ (9 ∷ []) }

answer-returns_example :
    let (x', survey', seen) = Respondent.recv_hook answering (answer_to 7) in
    let (x'', answer', sent) = Respondent.send_hook x' poll in
    (seen ≡ true)
    × (sent ≡ true)
    × (Respondent.sender x'' answer' ≡ (
      record x'' {
        peers =
            insert 7
              (record idle_queue { items = record poll { header = slice (9 ∷ []) } ∷ [] })
              x''.peers;
      },
      queued 7 (record poll { header = slice (9 ∷ []) }),
    ))
    × ((Respondent.send_hook x'' poll).2 ≡ false)
answer-returns_example =
    answer-returns answering 7 (9 ∷ []) (answer_to 7) poll poll idle_queue
      (record idle_queue { items = record poll { header = slice (9 ∷ []) } ∷ [] }) refl
      (omega arith) refl (unfold lookup in refl) (unfold offer in refl)

abbrev race : System
race = record { state = answering; removed = []; phase = waiting }

removal_panics_example :
    (run race (finds (answer_to 7) ∷ removes 7 ∷ closes 7 ∷ pushes ∷ [])).1 ≡ true
removal_panics_example =
    removal_panics race 7 (9 ∷ []) (answer_to 7) idle_queue (omega arith) refl
      (unfold lookup in refl)
