-- ===== src/Route/Trip.antt =====
-- The round trip of a request and its reply.
use mangos_v.Prelude.{
  ℕ, suc, ◌<◌, ◌≡◌, refl, true, false, none, some, List, [], ◌∷◌, ◌++◌, arith, lt→ltb, ==_refl,
  length, All,
}
use mangos_v.Route.{Hop, backward, forward, homeward, outward}
use mathlib.Core.List.{append_assoc}
use mangos_v.Chan.{Chan, has_room, offer_room}
use mangos_v.Backtrace.Paths.{path, IsPipeId, IsRequestId}
use mangos_v.Rep.Reply.{receiver-path, recv_hook_raw, send_hook_raw, sender_known}
use mangos_v.Prelude.Bytes.{Bytes, put_u32, append, skip4, slice}
use mangos_v.Message.{Message, fresh, wire}
use mangos_v.Prelude.Table.{lookup}
use mangos_v.Req.State.{receiver_word}
use mangos_v.Rep.Reply
use mangos_v.Req.State

-- A device that can serve: raw sockets, and a known pipe whose queue has room.
pub record Serves (h : Hop) : Type 0 where
  pub front_raw : h.front.raw ≡ true
  pub back_raw : h.back.raw ≡ true
  pub pipe_id : IsPipeId h.pipe
  pub queue : Chan Message
  pub known : lookup h.pipe h.front.eps ≡ some queue
  pub is_open : queue.is_closed ≡ false
  pub room : has_room queue ≡ true

-- Every device still accepts a request that has passed `n` devices before the first of them.
abbrev pub Near : ℕ → List Hop → Type 0
Near n [] = Unit {0}
Near n (h ∷ hs) = (n < h.front.ttl) × Near (suc n) hs

-- The pipes that a request has come by after these devices, latest first.
abbrev pub stacked : List Hop → List ℕ → List ℕ
stacked [] vs = vs
stacked (h ∷ hs) vs = stacked hs (h.pipe ∷ vs)

pub stacked-IsPipeId :
    (hs : List Hop) (vs : List ℕ) → All Serves hs → All IsPipeId vs → All IsPipeId (stacked hs vs)
stacked-IsPipeId [] vs s hv = hv
stacked-IsPipeId (h ∷ hs) vs s hv = stacked-IsPipeId hs (h.pipe ∷ vs) s.1 (s.0.pipe_id, hv)

forward-path :
    (h : Hop) (vs : List ℕ) (id : ℕ) (payload : Bytes)
    → Serves h
    → All IsPipeId vs
    → IsRequestId id
    → length vs < h.front.ttl
    → forward h (fresh (path vs id ++ payload)) ≡ some (fresh (path (h.pipe ∷ vs) id ++ payload))
unfolding fresh forward path wire append
forward-path h vs id payload s hv hi near =
    rw
      (
        receiver-path h.front h.pipe vs id payload (fresh (path vs id ++ payload)) hv hi refl,
        lt→ltb _ _ near,
        forward,
      )
      (rw (Reply.recv_hook_raw h.front _ s.front_raw, State.send_hook_raw h.back _ s.back_raw) refl)

backward-path :
    (h : Hop) (vs : List ℕ) (id : ℕ) (payload : Bytes)
    → Serves h
    → backward h (fresh (path (h.pipe ∷ vs) id ++ payload)) ≡ some (fresh (path vs id ++ payload))
unfolding fresh path backward append wire put_u32 skip4
backward-path h vs id payload s =
    let m : Message = record {
      header = slice (put_u32 h.pipe);
      body = path vs id ++ payload;
      port = none;
      expire = none;
    } in
    let left : Message = record m { header = skip4 m.header } in
    let e : (put_u32 h.pipe ++ path vs id) ++ payload ≡ put_u32 h.pipe ++ (path vs id ++ payload) =
      append_assoc (put_u32 h.pipe) (path vs id) payload in
    rw
      (
        backward,
        State.receiver_word (fresh (path (h.pipe ∷ vs) id ++ payload)) h.pipe
            (path vs id ++ payload) e,
      )
      (rw (State.recv_hook_raw h.back m s.back_raw, Reply.send_hook_raw h.front m s.front_raw)
        (rw
          (Reply.sender_known h.front m h.pipe [] s.queue _ (omega arith) refl s.known
            (offer_room s.queue left s.is_open s.room))
          (rw (==_refl h.pipe) refl)))

-- Through devices that can serve, a request arrives with the pipes that it came by stacked on it.
pub outward-path :
    (hs : List Hop) (vs : List ℕ) (id : ℕ) (payload : Bytes)
    → All Serves hs
    → All IsPipeId vs
    → IsRequestId id
    → Near (length vs) hs
    → outward hs (fresh (path vs id ++ payload)) ≡ some (fresh (path (stacked hs vs) id ++ payload))
unfolding outward
outward-path [] vs id payload s hv hi near = refl
outward-path (h ∷ hs) vs id payload s hv hi near =
    rw (forward-path h vs id payload s.0 hv hi near.0)
      (outward-path hs (h.pipe ∷ vs) id payload s.1 (s.0.pipe_id, hv) hi near.1)

-- A reply that carries those pipes goes home through the same devices, and sheds them.
pub homeward-path :
    (hs : List Hop) (vs : List ℕ) (id : ℕ) (payload : Bytes)
    → All Serves hs
    → homeward hs (fresh (path (stacked hs vs) id ++ payload))
      ≡ some (fresh (path vs id ++ payload))
unfolding homeward
homeward-path [] vs id payload s = refl
homeward-path (h ∷ hs) vs id payload s =
    rw (homeward-path hs (h.pipe ∷ vs) id payload s.1) (backward-path h vs id payload s.0)
