-- ===== src/Route.antt =====
-- Requests and replies across devices. A device (device.go) couples a raw REP socket, towards the
-- requesters, with a raw REQ socket, towards the repliers, and its forwarders pass every message on.
-- Between sockets a transport copies header and body into the body of a fresh message
-- (transport/inproc/inproc.go, lines 107 to 109, and conn.go, lines 72 to 94).
pub mod Trip
pub mod Exchange
use mangos_v.Prelude.{ℕ, ◌&&◌, Option, none, some, List, [], ◌∷◌, ◌==◌, if◌then◌else◌}
use mangos_v.Message.{Message, fresh, wire}
use mangos_v.Rep.{Rep}
use mangos_v.Req.{Req}
use mangos_v.Protocol.{up, Routed, deliver, queued}
use mangos_v.Rep
use mangos_v.Req

-- A device, and the pipe by which a request reaches it.
pub record Hop : Type 0 where
  pub front : Rep
  pub back : Req
  pub pipe : ℕ

-- The forwarder from the REP socket to the REQ socket: `RecvMsg` there, then `SendMsg` here.
unfoldable pub forward : Hop → Message → Option Message
forward h m = elim (Rep.receiver h.front h.pipe up m) [
  | deliver m' ↦
      let (front, got, seen) = Rep.recv_hook h.front m' in
      let (back, out, sent) = Req.send_hook h.back got in
      if seen && sent then some (fresh (wire out)) else none
  | _ ↦ none
]

-- The message arrives at the other end of the pipe only if it was queued for that pipe.
abbrev leaves_by : ℕ → Routed → Option Message
leaves_by pipe (queued id m) = if id == pipe then some (fresh (wire m)) else none
leaves_by pipe _ = none

-- The forwarder from the REQ socket to the REP socket.
unfoldable pub backward : Hop → Message → Option Message
backward h m = elim (Req.receiver up m) [
  | deliver m' ↦
      let (back, got, seen) = Req.recv_hook h.back m' in
      let (front, out, sent) = Rep.send_hook h.front got in
      if seen && sent then leaves_by h.pipe (Rep.sender front out).1 else none
  | _ ↦ none
]

abbrev and_then : Option Message → (Message → Option Message) → Option Message
and_then none f = none
and_then (some m) f = f m

-- A request that goes out through the devices, and a reply that comes home through them.
unfoldable pub outward : List Hop → Message → Option Message
outward [] m = some m
outward (h ∷ hs) m = and_then (forward h m) (outward hs)

unfoldable pub homeward : List Hop → Message → Option Message
homeward [] m = some m
homeward (h ∷ hs) m = let late = homeward hs m in and_then late (backward h)
