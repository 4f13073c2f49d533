-- ===== src/Route/Exchange.antt =====
-- One question and its answer, from a cooked REQ socket through devices to a cooked REP socket.
use mangos_v.Prelude.{
  ℕ, ◌<◌, ◌≡◌, refl, sym, true, false, ◌&&◌, Option, none, some, List, [], ◌++◌, arith,
  if◌then◌else◌, lt→ltb, ==_refl, length, All,
}
use mangos_v.Message.{Message, fresh, wire}
use mangos_v.Rep.{Rep}
use mangos_v.Rep.Reply.{receiver-path, reply-returns}
use mangos_v.Req.{Req, next_id}
use mangos_v.Route.{Hop, homeward, outward, leaves_by}
use mangos_v.Chan.{Chan, has_room, offer_room}
use mangos_v.Protocol.{up, deliver}
use mangos_v.Backtrace.Paths.{path, IsPipeId, IsRequestId}
use mangos_v.Prelude.Bytes.{Bytes, append, put_u32, slice}
use mangos_v.Prelude.Table.{lookup}
use mangos_v.Req.State.{receiver_word, recv_hook-send_hook}
use mathlib.Core.List.{append-nil}
use mangos_v.Route.Trip.{Near, Serves, homeward-path, outward-path, stacked, stacked-IsPipeId}
use mangos_v.Req.Identifiers.{next_id-IsRequestId}
use mangos_v.Rep
use mangos_v.Rep.Reply
use mangos_v.Req.State
use mangos_v.Req

-- `Send` on the client's socket.
unfoldable pub ask : Req → Bytes → Req × Message
ask c question = let (c', m, sent) = Req.send_hook c (fresh question) in (c', fresh (wire m))

-- The server's turn on the pipe `pipe`: what its application is handed, and the reply that leaves.
unfoldable pub serve : Rep → ℕ → Bytes → Message → Option (Bytes × Message)
serve s pipe answer m = elim (Rep.receiver s pipe up m) [
  | deliver m' ↦
      let (s', request, seen) = Rep.recv_hook s m' in
      let (s'', reply, sent) = Rep.send_hook s' (fresh answer) in
      elim (leaves_by pipe (Rep.sender s'' reply).1) [
        | none ↦ none
        | some out ↦ if seen && sent then some (request.body, out) else none
      ]
  | _ ↦ none
]

-- `Recv` on the client's socket: what the application is handed.
unfoldable pub hear : Req → Message → Option Bytes
hear c m = elim (Req.receiver up m) [
  | deliver m' ↦
      let (c', got, accepted) = Req.recv_hook c m' in if accepted then some got.body else none
  | _ ↦ none
]

unfoldable pub exchange : Req → List Hop → Rep → ℕ → Bytes → Bytes → Option (Bytes × Bytes)
exchange c hs s pipe question answer =
    let (c', m) = ask c question in
    elim (outward hs m) [
      | none ↦ none
      | some request ↦ elim (serve s pipe answer request) [
        | none ↦ none
        | some (seen, reply) ↦ elim (homeward hs reply) [
          | none ↦ none
          | some home ↦ elim (hear c' home) [ none ↦ none | some got ↦ some (seen, got) ]
        ]
      ]
    ]

-- A server that can answer on the pipe, at `n` devices from the client.
pub record Answers (s : Rep) (pipe n : ℕ) : Type 0 where
  pub cooked : s.raw ≡ false
  pub pipe_id : IsPipeId pipe
  pub near : n < s.ttl
  pub queue : Chan Message
  pub known : lookup pipe s.eps ≡ some queue
  pub is_open : queue.is_closed ≡ false
  pub room : has_room queue ≡ true

ask-path :
    (c : Req) (question : Bytes)
    → c.raw ≡ false
    → (ask c question).1 ≡ fresh (path [] (Req.next_id c).0 ++ question)
unfolding ask Req.send_hook fresh wire append path
ask-path c question cooked = rw cooked refl

serve-path :
    (s : Rep) (pipe : ℕ) (vs : List ℕ) (id : ℕ) (question answer : Bytes)
    → Answers s pipe (length vs)
    → All IsPipeId vs
    → IsRequestId id
    → serve s pipe answer (fresh (path vs id ++ question))
      ≡ some (question, fresh (path vs id ++ answer))
unfolding serve fresh append path wire
serve-path s pipe vs id question answer a hv hi =
    let request : Message = record {
      header = slice (put_u32 pipe ++ path vs id);
      body = question;
      port = none;
      expire = none;
    } in
    let left : Message = record {
      header = slice (path vs id);
      body = answer;
      port = none;
      expire = none;
    } in
    let (seen, same, sent, routed) =
      Reply.reply-returns s pipe (path vs id) request (fresh answer) a.queue _ a.cooked
        (omega arith) refl a.known (offer_room a.queue left a.is_open a.room) in
    rw
      (
        receiver-path s pipe vs id question (fresh (path vs id ++ question)) hv hi refl,
        lt→ltb _ _ a.near,
        serve,
      )
      (rw (routed, ==_refl pipe) (rw (seen, sent, same) refl))

hear-path :
    (c : Req) (question answer : Bytes)
    → c.raw ≡ false
    → hear (ask c question).0 (fresh (path [] (Req.next_id c).0 ++ answer)) ≡ some answer
unfolding hear fresh path append ask
hear-path c question answer cooked =
    let id = (Req.next_id c).0 in
    let home : Message = record {
      header = slice (put_u32 id);
      body = answer;
      port = none;
      expire = none;
    } in
    let (accepted, same, over) =
      State.recv_hook-send_hook c (fresh question) home [] cooked (sym (append-nil _)) in
    rw (State.receiver_word (fresh (path [] id ++ answer)) id answer refl, hear)
      (rw (accepted, same) refl)

-- From a cooked REQ socket, through any number of devices whose raw sockets know the pipe and have
-- room on it and whose hop limits are not reached, to a cooked REP socket that can answer on its
-- pipe: the question reaches the server's application unchanged, and the answer comes back to the
-- client's application unchanged.
pub exchange-Answers :
    (c : Req) (hs : List Hop) (s : Rep) (pipe : ℕ) (question answer : Bytes)
    → c.raw ≡ false
    → All Serves hs
    → Near 0 hs
    → Answers s pipe (length (stacked hs []))
    → exchange c hs s pipe question answer ≡ some (question, answer)
unfolding exchange
exchange-Answers c hs s pipe question answer cooked serves near a =
    let ids = stacked-IsPipeId hs [] serves tt in
    let id = (Req.next_id c).0 in
    let hi = next_id-IsRequestId c in
    rw
      (
        ask-path c question cooked,
        outward-path hs [] id question serves tt hi near,
        serve-path s pipe (stacked hs []) id question answer a ids hi,
        homeward-path hs [] id answer serves,
        hear-path c question answer cooked,
        exchange,
      )
      refl
