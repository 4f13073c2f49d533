-- ===== src/Tests/Multicast.antt =====
-- PUB, SUB, BUS and STAR at concrete inputs.
use mangos_v.Prelude.{
  ℕ, ◌+◌, ◌≡◌, refl, ◌↔◌, inl, inr, true, false, none, some, [], ◌∷◌, ◌++◌, arith, ◌==◌, In,
}
use mangos_v.Protocol.{up, ProtocolSocket, deliver}
use mangos_v.Prelude.Table.{AllValues, Table, lookup}
use mangos_v.Bus.{Bus}
use mangos_v.Prelude.Bytes.{Bytes, put_u32, slice}
use mangos_v.Chan.{Chan, IsSound, offer}
use mangos_v.Message.{Counted, Message, dup, release}
use mangos_v.Pub.{Pub}
use mangos_v.Sub.Subscriptions.{receiver-delivers}
use mangos_v.Prelude.Strings.{StartsWith}
use mangos_v.Sub.{Sub, unsubscribe}
use mangos_v.Fan.{everybody, fan_out}
use mangos_v.Star.Laws.{framed, relay, relay_iff}
use mangos_v.Fan.Laws.{held, serve_all, served_at}
use mangos_v.Bus.Laws.{sender-forwards}
use mangos_v.Pub.Laws.{sender-publishes}
use mangos_v.Pub
use mangos_v.Bus
use mangos_v.Sub

abbrev multicast_socket : ProtocolSocket
multicast_socket = record { recverr = none; senderr = none }

abbrev note : Message
note = record { header = slice []; body = 1 ∷ 2 ∷ []; port = none; expire = none }

-- A queue that is empty, and one that is full.
abbrev roomy : Chan Message
roomy = record { cap = 2; items = []; takers = 0; is_closed = false }

abbrev crowded : Chan Message
crowded = record { cap = 1; items = note ∷ []; takers = 0; is_closed = false }

abbrev two_peers : Table (Chan Message)
two_peers = (7, roomy) ∷ (8, crowded) ∷ []

two_peers-IsSound : AllValues IsSound two_peers
two_peers-IsSound = (
  record { is_open = refl; within = omega arith },
  (record { is_open = refl; within = omega arith }, tt),
)

abbrev publisher : Pub
publisher = record { sock = multicast_socket; eps = two_peers; raw = false; w = record { cnt = 1 } }

abbrev counted : Counted
counted = record { msg = note; bsize = 64; refcnt = 1 }

-- One of the two queues takes the note, so its own reference is the one that is left.
published : (Pub.sender publisher counted).1.refcnt ≡ 1
unfolding Pub.sender fan_out offer dup release everybody
published = refl

sender-publishes_example :
    let (p', m', bad) = Pub.sender publisher counted in
    (bad ≡ false)
    × (p'.eps ≡ serve_all everybody note two_peers)
    × (m'.refcnt + 1 + held two_peers ≡ 1 + held p'.eps)
    × (AllValues IsSound p'.eps)
sender-publishes_example =
    sender-publishes publisher counted two_peers-IsSound (omega arith) (omega arith)

abbrev member : Bus
member = record { sock = multicast_socket; peers = two_peers; raw = true; w = record { cnt = 1 } }

abbrev from_seven : Counted
from_seven = record {
  msg = record note { header = slice (put_u32 7 ++ []) };
  bsize = 64;
  refcnt = 1;
}

sender-forwards_example :
    let (x', m', bad) = Bus.sender member from_seven in
    (bad ≡ false)
    × ((j : ℕ) → lookup j x'.peers ≡ served_at (λ k. 7 == k) note j (lookup j two_peers))
    × (lookup 7 x'.peers ≡ lookup 7 two_peers)
    × (m'.refcnt + 1 + held two_peers ≡ 1 + held x'.peers)
sender-forwards_example =
    sender-forwards member 7 from_seven [] (omega arith) refl two_peers-IsSound (omega arith)
      (omega arith)

relay_iff_example : relay 3 8 (framed 2 (9 ∷ [])) ≡ some (framed 5 (9 ∷ []))
relay_iff_example = relay_iff 3 8 2 (9 ∷ []) (omega arith) (omega arith)

abbrev subscriber : Sub
subscriber = record { sock = multicast_socket; subs = (5 ∷ []) ∷ (1 ∷ []) ∷ []; raw = false }

receiver-delivers_example :
    (Sub.receiver subscriber up note ≡ deliver note)
    ↔ ((sub : Bytes) × In sub subscriber.subs × StartsWith note.body sub)
receiver-delivers_example = receiver-delivers subscriber note

heard : Sub.receiver subscriber up note ≡ deliver note
heard = receiver-delivers_example.1 (1 ∷ [], inr (inl refl), (2 ∷ [], refl))

abbrev newcomer : Sub
newcomer = record subscriber { subs = [] }
