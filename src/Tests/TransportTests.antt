-- ===== src/Tests/TransportTests.antt =====
-- The in-process transport and the connections at concrete inputs.
use mangos_v.Prelude.{ℕ, ◌≡◌, refl, ◌↔◌, false, none, some, List, [], ◌∷◌, ◌++◌, arith}
use mangos_v.Prelude.Table.{insert, lookup}
use mangos_v.Peers.{peer, req, rep, sub, number, valid_peers}
use mangos_v.Inproc.{
  Broker, accept, close_listener, dial, empty_broker, end_at, failed, listen, new_listener, offers,
  receives_on, send, stuck, split_last,
}
use mangos_v.Prelude.Bytes.{Bytes, slice}
use mangos_v.Message.{Message, expired, fresh, wire}
use mangos_v.Inproc.Histories.{
  accepts, closes_pipe, dials, listens, makes_listener, run, send-receives_on, step, Call,
}
use mangos_v.Inproc.Locked.{bad_dial_locks}
use mangos_v.Errors.{bad_proto, ok}
use mangos_v.Conn.Handshake.{collect, handshake, handshake_iff, header_of, opened}
use mangos_v.Prelude.Int.{pos}
use mangos_v.Inproc
use mangos_v.Inproc.Histories
use mangos_v.Options

-- A REP listener (1) at the address 40, a pipe (2) that waits there, and a REQ client (3).
abbrev meeting : List Histories.Call
meeting =
    Histories.makes_listener 40 rep
    ∷ Histories.listens 1
    ∷ Histories.accepts 1
    ∷ Histories.dials 40 req
    ∷ []

abbrev hello : Message
hello = record { header = slice (7 ∷ []); body = 1 ∷ 2 ∷ []; port = none; expire = none }

met : (end_at (Histories.run empty_broker meeting) 3).peer ≡ some 2
unfolding Histories.run Histories.step Inproc.new_listener Inproc.listen Inproc.accept Inproc.dial
    lookup insert valid_peers Inproc.split_last
met = refl

send-receives_on_example :
    let b = Histories.run empty_broker meeting in
    (c : ℕ) × ((end_at b 2).peer ≡ some 3)
    × (Inproc.send 0 3 hello b ≡ Inproc.offers c (fresh (wire hello)))
    × (Inproc.receives_on 2 b ≡ some c)
send-receives_on_example = send-receives_on meeting 3 2 0 hello met (unfold expired in refl)

-- The same listener, and nobody waiting.
abbrev listening : Broker
listening = record {
  locked = false;
  by_addr = (40, 1) ∷ [];
  objects = (1, record { addr = 40; proto = rep; accepters = [] }) ∷ [];
  ends = [];
  next = 2;
}

bad_dial_locks_example :
    let (b', answer) = Inproc.dial 40 sub listening in
    let after = Histories.run b' (Histories.closes_pipe 9 ∷ []) in
    (answer ≡ Inproc.failed bad_proto)
    × ((Inproc.dial 40 req after).1 ≡ Inproc.stuck)
    × ((Inproc.listen 1 after).1 ≡ Inproc.stuck)
    × ((Inproc.accept 1 after).1 ≡ Inproc.stuck)
    × ((Inproc.close_listener 1 after).1 ≡ Inproc.stuck)
bad_dial_locks_example =
    bad_dial_locks listening 40 sub 1 (record { addr = 40; proto = rep; accepters = [] })
      (Histories.closes_pipe 9 ∷ []) 40 req 1 refl (unfold lookup in refl) (unfold lookup in refl)
      (unfold valid_peers number in refl)

-- What a REP peer sends, and one byte more.
abbrev rep_header : Bytes
rep_header = 0 ∷ 83 ∷ 80 ∷ 0 ∷ 0 ∷ 49 ∷ 0 ∷ 0 ∷ 9 ∷ []

handshake_iff_example :
    (handshake req (ok (Options.int (pos 64))) [] rep_header ≡ opened (pos 64) [] (9 ∷ []))
    ↔ (rep_header ≡ header_of (number (peer req)) ++ (9 ∷ []))
handshake_iff_example =
    handshake_iff req (ok (Options.int (pos 64))) [] [] rep_header (9 ∷ []) (unfold collect in refl)
      (omega arith)
