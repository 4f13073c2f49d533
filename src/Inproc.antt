-- ===== src/Inproc.antt =====
-- transport/inproc/inproc.go: sockets of one process. Listeners and pipes are objects, under numbers
-- that are handed out once; an address is a number. What runs under `listeners.mx` is one step, and a
-- call that finds the lock held is stuck.
pub mod Pairing
pub mod Histories
pub mod Steps
pub mod Locked
use mangos_v.Prelude.{
  ℕ, ◌+◌, ◌*◌, Bool, true, false, not, Option, none, some, List, [], ◌∷◌, ◌++◌, ◌==◌, if◌then◌else◌,
}
use mangos_v.Errors.{closed, Error, addr_in_use, bad_proto, conn_refused}
use mangos_v.Peers.{Kind, valid_peers}
use mangos_v.Message.{Message, expired, fresh, wire}
use mangos_v.Prelude.Table.{Table, delete, insert, lookup}

-- A listener object. Whoever accepts waits as the pipe that it will get.
pub record Listener : Type 0 where
  pub addr : ℕ
  pub proto : Kind
  pub accepters : List ℕ

-- A pipe object (`inproc`): its peer, the channels that it reads and writes, and whether its `closeq` is
-- closed. The channels that server `s` makes are `2 * s` and `2 * s + 1`.
pub record End : Type 0 where
  pub peer : Option ℕ
  pub rq : ℕ
  pub wq : ℕ
  pub is_closed : Bool

abbrev pub blank_end : End
blank_end = record { peer = none; rq = 0; wq = 0; is_closed = false }

-- The variable `listeners`, and the objects.
pub record Broker : Type 0 where
  pub locked : Bool
  pub by_addr : Table ℕ
  pub objects : Table Listener
  pub ends : Table End
  pub next : ℕ

abbrev pub empty_broker : Broker
empty_broker = record { locked = false; by_addr = []; objects = []; ends = []; next = 1 }

abbrev pub end_or_blank : Option End → End
end_or_blank none = blank_end
end_or_blank (some e) = e

abbrev pub end_at : Broker → ℕ → End
end_at b id = end_or_blank (lookup id b.ends)

-- The result of a call: it succeeds with the number of an object, fails, waits, or is stuck.
pub data Answer : Type 0 where
  done : ℕ → Answer
  failed : Error → Answer
  waits stuck : Answer

-- `NewListener`.
unfoldable pub new_listener : ℕ → Kind → Broker → Broker × Answer
new_listener addr kind b = (
  record b {
    objects = insert b.next (record { addr = addr; proto = kind; accepters = [] }) b.objects;
    next = b.next + 1;
  },
  done b.next,
)

-- `Listen` of the listener `lid`.
unfoldable pub listen_at : ℕ → Listener → Broker → Broker × Answer
listen_at lid l b = elim (lookup l.addr b.by_addr) [
  | some other ↦ (b, failed addr_in_use)
  | none ↦ (record b { by_addr = insert l.addr lid b.by_addr }, done lid)
]

-- A call on a listener that is no object does not occur; it has no effect here.
abbrev with_listener : ℕ → (Listener → Broker → Broker × Answer) → Broker → Broker × Answer
with_listener lid f b =
    if b.locked
    then (b, stuck)
    else elim (lookup lid b.objects) [ none ↦ (b, waits) | some l ↦ f l b ]

unfoldable pub listen : ℕ → Broker → Broker × Answer
unfolding listen_at
listen lid = with_listener lid (listen_at lid)

-- `Accept` up to its unlock, with the new pipe object.
unfoldable pub accept_at : ℕ → Listener → Broker → Broker × Answer
accept_at lid l b = (
  record b {
    objects = insert lid (record l { accepters = l.accepters ++ (b.next ∷ []) }) b.objects;
    ends = insert b.next blank_end b.ends;
    next = b.next + 1;
  },
  done b.next,
)

unfoldable pub accept : ℕ → Broker → Broker × Answer
unfolding accept_at
accept lid = with_listener lid (accept_at lid)

-- `accepters[len-1]` and `accepters[:len-1]`.
unfoldable pub split_last : List ℕ → Option (List ℕ × ℕ)
split_last [] = none
split_last (x ∷ xs) = elim (split_last xs) [
  | none ↦ some ([], x)
  | some (rest, s) ↦ some (x ∷ rest, s)
]

-- The two ends that `Dial` leaves.
abbrev pub client_end : ℕ → End
client_end s = record blank_end { peer = some s; rq = 2 * s; wq = 2 * s + 1 }

abbrev pub server_end : ℕ → ℕ → End → End
server_end client s server = record server { peer = some client; wq = 2 * s; rq = 2 * s + 1 }

-- The end of `Dial`: the client `b.next` and the server `s` become peers.
unfoldable pub connect : ℕ → Broker → Broker
connect s b = record b {
  ends = insert b.next (client_end s) (insert s (server_end b.next s (end_at b s)) b.ends);
  next = b.next + 1;
}

-- `Dial` once it has found the listener. The lock stays held where the protocols do not match.
dial_at : Kind → ℕ → Listener → Broker → Broker × Answer
dial_at kind lid l b =
    if not (valid_peers kind l.proto)
    then (record b { locked = true }, failed bad_proto)
    else elim (split_last l.accepters) [
      | none ↦ (b, waits)
      | some (rest, s) ↦ (
        connect s (record b { objects = insert lid (record l { accepters = rest }) b.objects }),
        done b.next,
      )
    ]

unfoldable pub dial : ℕ → Kind → Broker → Broker × Answer
unfolding dial_at connect
dial addr kind b = if b.locked then (b, stuck) else elim (lookup addr b.by_addr) [
  | none ↦ (b, failed conn_refused)
  | some lid ↦ elim (lookup lid b.objects) [
    | none ↦ (b, failed conn_refused)
    | some l ↦ dial_at kind lid l b
  ]
]

-- `close(s.closeq)`.
unfoldable pub close_end : ℕ → Broker → Broker
close_end id b =
    let e = end_at b id in record b { ends = insert id (record e { is_closed = true }) b.ends }

unfoldable pub close_ends : List ℕ → Broker → Broker
close_ends [] b = b
close_ends (s ∷ ss) b = close_ends ss (close_end s b)

abbrev is_at : ℕ → Option ℕ → Bool
is_at lid none = false
is_at lid (some other) = other == lid

-- `Close` of the listener: those who wait to accept get an error.
unfoldable pub close_at : ℕ → Listener → Broker → Broker × Answer
close_at lid l b = (
  close_ends l.accepters (record b {
    by_addr = if is_at lid (lookup l.addr b.by_addr) then delete l.addr b.by_addr else b.by_addr;
    objects = insert lid (record l { accepters = [] }) b.objects;
  }),
  done lid,
)

unfoldable pub close_listener : ℕ → Broker → Broker × Answer
unfolding close_at
close_listener lid = with_listener lid (close_at lid)

-- `Close` of a pipe.
unfoldable pub close_pipe : ℕ → Broker → Broker
unfolding close_end
close_pipe id b = if (end_at b id).is_closed then b else close_end id b

-- What `Send` does: it fails, drops an expired message, or offers a copy on a channel.
pub data Sending : Type 0 where
  fails : Error → Sending
  drops : Sending
  offers : ℕ → Message → Sending

unfoldable pub send : ℕ → ℕ → Message → Broker → Sending
send now id m b = elim (end_at b id).peer [
  | none ↦ fails closed
  | some other ↦ if expired now m then drops else offers (end_at b id).wq (fresh (wire m))
]

-- The channel that `Recv` waits on.
unfoldable pub receives_on : ℕ → Broker → Option ℕ
receives_on id b = elim (end_at b id).peer [ none ↦ none | some other ↦ some (end_at b id).rq ]
