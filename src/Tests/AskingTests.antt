-- ===== src/Tests/AskingTests.antt =====
-- Surveys at the socket, and the compatibility layer's surveyor, at concrete inputs.
use mangos_v.Prelude.{ℕ, ◌≡◌, refl, false, none, some, List, [], ◌∷◌, ◌++◌, map}
use mangos_v.Prelude.Bytes.{get_u32, put_u32, slice}
use mangos_v.Prelude.Int.{pos}
use mangos_v.Errors.{proto_state}
use mangos_v.Message.{Message}
use mangos_v.Protocol.{ProtocolSocket}
use mangos_v.Core.{Socket, accepted, failed_recv, new_socket, queues, recv_msg, send_msg, shuts}
use mangos_v.Core.Surveys.{Round, incoming, receive, stripped, survey-answered, surveyor_operations}
use mangos_v.Surveyor.{Surveyor, expire}

abbrev asking_sock : ProtocolSocket
asking_sock = record { recverr = some proto_state; senderr = none }

abbrev asker : Socket Surveyor
asker = new_socket (record {
  sock = asking_sock;
  peers = [];
  raw = false;
  next_id = 5;
  survey_id = 0;
  survey_time = pos 60;
  timer = none;
  w = record { cnt = 1 };
  ttl = pos 0;
})

abbrev said : ℕ → ℕ → Message
said id body = record {
  header = slice (put_u32 id ++ []);
  body = body ∷ [];
  port = none;
  expire = none;
}

-- A late answer to the survey before, an answer, and another answer.
abbrev answers : List Round
answers = (said 2147483652 1 ∷ [], said 2147483653 2) ∷ ([], said 2147483653 3) ∷ []

survey-answered_example :
    let (s1, sent) = send_msg surveyor_operations 3 queues (said 0 7) asker in
    let q = s1.urq in
    let arrived : Socket Surveyor = record s1 {
      urq = record q { items = incoming answers (said 9 9 ∷ []) };
    } in
    let (s2, gots) = receive answers arrived in
    let expired : Socket Surveyor = record s2 { proto = expire s2.proto } in
    (sent ≡ accepted)
    × (gots ≡ map stripped answers)
    × (s2.urq.items ≡ said 9 9 ∷ [])
    × ((recv_msg surveyor_operations (shuts ∷ []) expired).1 ≡ failed_recv proto_state)
unfolding new_socket get_u32 put_u32
survey-answered_example =
    survey-answered 3 asker (said 0 7) answers (said 9 9 ∷ []) (shuts ∷ []) refl refl refl refl
      (((refl, tt), ([], refl)), ((tt, ([], refl)), tt))
