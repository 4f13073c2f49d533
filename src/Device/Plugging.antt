-- ===== src/Device/Plugging.antt =====
-- Which devices there are, and what a device of a REP and a REQ socket does.
use mangos_v.Prelude.{
  ℕ, ◌≡◌, refl, ◌↔◌, ◌<◌, true, false, some, none, [], ◌∷◌, Bool-cases, inl, inr, arith,
}
use mangos_v.Prelude.Bytes.{Bytes}
use mangos_v.Backtrace.Paths.{IsPipeId}
use mangos_v.Prelude.Table.{lookup}
use mangos_v.Chan.{Chan, has_room}
use mangos_v.Errors.{Error}
use mangos_v.Message.{Message}
use mangos_v.Options.{OptionName, Value}
use mangos_v.Peers.{Kind, peer, valid_peers, valid_peers_iff, rep, req, number}
use mangos_v.Core.{Operations, Socket}
use mangos_v.Core.Pipes.Instances.{rep_operations}
use mangos_v.Core.Requests.{req_operations}
use mangos_v.Rep.{Rep}
use mangos_v.Req.{Req}
use mangos_v.Route.Trip.{Serves}
use mangos_v.Route.Exchange.{Answers, exchange, exchange-Answers}
use mangos_v.Device.{
  couple, set_raw_again, refused_device, Plugged, both, device, only_first, set_raw, started,
  loop_back,
}
use mangos_v.Rep
use mangos_v.Req
use mangos_v.Core.Options as Own

-- The protocol lets the socket be raw.
abbrev pub TakesRaw : {S : Type 0} → Operations S → Type 0
TakesRaw P = (p : _) → (P.set_option OptionName.raw (Value.bool true) p).1 ≡ none

set_raw-started :
    {S : Type 0} (P : Operations S) (s : Socket S) → TakesRaw P → (set_raw P s).1 ≡ started
unfolding set_raw Own.set_option
set_raw-started P s takes = rw (takes s.proto) refl

set_raw_again-started :
    {S : Type 0} (P : Operations S) (r : Plugged) (s : Socket S)
    → TakesRaw P
    → r ≡ started
    → (set_raw_again P r s).1 ≡ started
set_raw_again-started P r s takes e = rw e (set_raw-started P s takes)

refused-started : {e : Error} → ¬ (refused_device e ≡ started)
refused-started h = cc

-- A device of one socket alone runs exactly if its protocol is its own counterpart, which only
-- those of PAIR, BUS and STAR are, where the protocol takes the raw mode.
pub device-loop_back :
    {S T : Type 0} (P : Operations S) (Q : Operations T) (k l : Kind) (s : Socket S)
    → TakesRaw P
    → ((device P Q k l (only_first s)).1 ≡ started) ↔ (peer k ≡ k)
unfolding device loop_back
device-loop_back P Q k l s takes = elim (Bool-cases (valid_peers k k)) [
  | inl valid ↦ (
    λ _. (valid_peers_iff k k).0 valid,
    λ _.
        rw valid (
          set_raw_again-started P (set_raw P s).1 (set_raw P s).0 takes
            (set_raw-started P s takes)),
  )
  | inr invalid ↦ (
    λ h. absurd (refused-started (rw invalid at h)),
    λ h. absurd (ground (arith, (valid_peers_iff k k).1 h)),
  )
]

-- What the two sockets of a device become.
abbrev raw_rep : Socket Rep → Socket Rep
raw_rep s = (set_raw rep_operations s).0

abbrev raw_req : Socket Req → Socket Req
raw_req s = (set_raw req_operations s).0

device-pair :
    (front : Socket Rep) (back : Socket Req)
    → device rep_operations req_operations rep req (both front back)
      ≡ (both (raw_rep front) (raw_req back), started)
unfolding device couple set_raw Own.set_option Rep.set_option Req.set_option valid_peers number
device-pair front back = refl

raw-Serves :
    (front : Socket Rep) (back : Socket Req) (id : ℕ) (q : Chan Message)
    → IsPipeId id
    → lookup id front.proto.eps ≡ some q
    → q.is_closed ≡ false
    → has_room q ≡ true
    → Serves (record { front = (raw_rep front).proto; back = (raw_req back).proto; pipe = id })
unfolding set_raw Own.set_option Rep.set_option Req.set_option
raw-Serves front back id q named known unclosed room = record {
  front_raw = refl;
  back_raw = refl;
  pipe_id = named;
  queue = q;
  known = known;
  is_open = unclosed;
  room = room;
}

raw_rep-ttl : (front : Socket Rep) → (raw_rep front).proto.ttl ≡ front.proto.ttl
unfolding set_raw Own.set_option Rep.set_option
raw_rep-ttl front = refl

-- A REP and a REQ socket, in whatever mode, form a device: `Device` starts it, and then a client's question
-- that comes to the first socket by a pipe with room reaches, by the second, a server that can answer,
-- and the client gets the answer, both unchanged. The first socket allows for a hop.
pub device-exchange :
    (c : Req) (front : Socket Rep) (back : Socket Req) (server : Rep) (id pipe : ℕ)
    (q : Chan Message) (question answer : Bytes)
    → c.raw ≡ false
    → IsPipeId id
    → lookup id front.proto.eps ≡ some q
    → q.is_closed ≡ false
    → has_room q ≡ true
    → 0 < front.proto.ttl
    → Answers server pipe 1
    → (front' : Socket Rep) × (back' : Socket Req) × (device rep_operations req_operations rep req
          (both front back)
        ≡ (both front' back', started))
      × (exchange c
            (record { front = front'.proto; back = back'.proto; pipe = id } ∷ [])
            server
            pipe
            question
            answer
          ≡ some (question, answer))
device-exchange c front back server id pipe q question answer cooked named known unclosed room near
      answers =
    (
      raw_rep front,
      raw_req back,
      device-pair front back,
      exchange-Answers c _ server pipe question answer cooked
          (raw-Serves front back id q named known unclosed room, tt)
          (rw (raw_rep-ttl front) near, tt) answers,
    )
