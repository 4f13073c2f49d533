-- ===== src/Tests/SocketTests.antt =====
-- PAIR, the protocol numbers and the message cache at concrete inputs.
use mangos_v.Prelude.{ℕ, ◌≡◌, refl, ap, ◌≢◌, Bool, true, false, none, some, [], ◌∷◌, ◌++◌, arith}
use mangos_v.Pair.{
  adds, removes, sets, Event, Pair, add_endpoint, remove_endpoint, run, run-first_peer,
}
use mangos_v.Message.Pools.{asks, frees, IsNew, new_message-IsNew, used}
use mangos_v.Message.{Counted, message_cache, new_message, Message, wire, expired}
use mangos_v.Prelude.Bytes.{slice}
use mangos_v.Protocol.{ProtocolSocket}
use mangos_v.Prelude.Table.{lookup, insert}
use mangos_v.Errors.{ok}
use mangos_v.Pipe.Identifiers.{Found, new_pipe-finds}
use mangos_v.Pipe.{Pipes, new_pipe}
use mangos_v.Prelude.Int.{pos}
use mangos_v.Conn.{recv, send}
use mangos_v.Conn.Framing.{recv-send}
use mangos_v.Pair
use mangos_v.Conn

abbrev quiet_socket : ProtocolSocket
quiet_socket = record { recverr = none; senderr = none }

abbrev lone : Pair
lone = record { sock = quiet_socket; peer = none; raw = false; w = record { cnt = 0 } }

-- The number of an event's endpoint, and whether it is a removal.
abbrev endpoint : Event → ℕ
endpoint (adds id) = id
endpoint (removes id) = id
endpoint (sets name v) = 0

-- A message of 128 bytes with one reference left.
abbrev spent : Counted
spent = record {
  msg = record { header = slice []; body = 1 ∷ []; port = none; expire = none };
  bsize = 128;
  refcnt = 1;
}

five_not_four : (e : Event) → endpoint e ≡ 5 → e ≢ removes 4
five_not_four e five same = omega (arith, ap endpoint same)

run-first_peer_example :
    let x' = Pair.run lone (adds 4 ∷ adds 5 ∷ removes 5 ∷ []) in
    (x'.peer ≡ some 4)
    × ((Pair.add_endpoint 6 x').1 ≡ true)
    × ((Pair.remove_endpoint 4 x').1 ≡ true)
    × ((Pair.add_endpoint 6 (Pair.remove_endpoint 4 x').0).1 ≡ false)
run-first_peer_example =
    run-first_peer lone 4 6 (adds 5 ∷ removes 5 ∷ []) refl
      (five_not_four (adds 5) refl, (five_not_four (removes 5) refl, tt))

new_message-IsNew_example :
    IsNew 100 (new_message 100 (used message_cache (asks 70 ∷ frees spent ∷ []))).0
new_message-IsNew_example = new_message-IsNew (asks 70 ∷ frees spent ∷ []) 100

-- The next two identifiers are in use, and then comes 0.
abbrev crowded_pipes : Pipes Bool
crowded_pipes = record { byid = (2147483646, true) ∷ (2147483647, true) ∷ []; nextid = 4294967294 }

third_try :
    new_pipe 4 true crowded_pipes
    ≡ some
        (1, record { byid = (2147483646, true) ∷ (2147483647, true) ∷ (1, true) ∷ []; nextid = 2 })
unfolding new_pipe lookup insert
third_try = refl

new_pipe-finds_example :
    (id : ℕ) × (s' : Pipes Bool) × (new_pipe 4 true crowded_pipes ≡ some (id, s'))
    × Found true crowded_pipes id s'
new_pipe-finds_example = new_pipe-finds 4 true crowded_pipes (omega arith) (omega arith)

-- A message of six bytes, and a limit of six bytes.
abbrev outgoing : Message
outgoing = record {
  header = slice (128 ∷ 0 ∷ 0 ∷ 5 ∷ []);
  body = 1 ∷ 2 ∷ [];
  port = none;
  expire = some 9;
}

abbrev blank : Message
blank = record { header = slice []; body = []; port = none; expire = none }

recv-send_example :
    Conn.recv (pos 6) blank (Conn.send 8 outgoing ++ (7 ∷ []))
    ≡ ok (record blank { body = 128 ∷ 0 ∷ 0 ∷ 5 ∷ 1 ∷ 2 ∷ [] }, 7 ∷ [])
unfolding wire expired
recv-send_example = recv-send (pos 6) 8 outgoing blank (7 ∷ []) refl (omega arith)
