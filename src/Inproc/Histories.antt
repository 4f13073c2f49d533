-- ===== src/Inproc/Histories.antt =====
-- What every history of calls of the in-process transport keeps true of its pipes.
use mangos_v.Prelude.{ℕ, ◌≡◌, refl, false, some, List, [], ◌∷◌, arith}
use mangos_v.Inproc.{
  Broker, accept, close_listener, close_pipe, dial, empty_broker, end_at, listen, new_listener,
  offers, receives_on, send, accept_at, close_at, listen_at,
}
use mangos_v.Inproc.Pairing.{Inv}
use mangos_v.Peers.{Kind}
use mangos_v.Message.{Message, expired, fresh, wire}
use mangos_v.Inproc.Steps.{
  accept_at-Inv, close_at-Inv, close_pipe-Inv, dial-Inv, listen_at-Inv, new_listener-Inv,
  with_listener-Inv,
}
use mangos_v.Prelude.Table.{lookup}

-- A call of the transport.
pub data Call : Type 0 where
  makes_listener dials : ℕ → Kind → Call
  listens accepts closes_listener closes_pipe : ℕ → Call

unfoldable pub step : Broker → Call → Broker
step b (makes_listener addr kind) = (new_listener addr kind b).0
step b (dials addr kind) = (dial addr kind b).0
step b (listens lid) = (listen lid b).0
step b (accepts lid) = (accept lid b).0
step b (closes_listener lid) = (close_listener lid b).0
step b (closes_pipe id) = close_pipe id b

unfoldable pub run : Broker → List Call → Broker
run b [] = b
run b (c ∷ cs) = run (step b c) cs

step-Inv : (b : Broker) (c : Call) → Inv b → Inv (step b c)
unfolding step new_listener listen accept dial close_listener close_pipe
step-Inv b (makes_listener addr kind) h = new_listener-Inv b addr kind h
step-Inv b (dials addr kind) h = dial-Inv b addr kind h
step-Inv b (listens lid) h =
    with_listener-Inv b lid (listen_at lid) (λ l known. listen_at-Inv b lid l h) h
step-Inv b (accepts lid) h =
    with_listener-Inv b lid (accept_at lid) (λ l known. accept_at-Inv b lid l known h) h
step-Inv b (closes_listener lid) h =
    with_listener-Inv b lid (close_at lid) (λ l known. close_at-Inv b lid l known h) h
step-Inv b (closes_pipe id) h = close_pipe-Inv b id h

run-Inv : (b : Broker) (cs : List Call) → Inv b → Inv (run b cs)
unfolding run
run-Inv b [] h = h
run-Inv b (c ∷ cs) h = run-Inv (step b c) cs (step-Inv b c h)

empty_broker-Inv : Inv empty_broker
unfolding lookup
empty_broker-Inv = record {
  linked = λ i j e. cc;
  once = λ s. omega arith;
  idle = λ s some_wait. absurd (omega arith);
  new_end = λ i late. refl;
  new_object = λ i late. refl;
}

-- After any history of the transport: a pipe's peer has it as its peer in turn, and a message that has
-- not expired when it is sent is offered, as one body with the header before it, on the channel that
-- the peer receives on.
pub send-receives_on :
    (cs : List Call) (i j now : ℕ) (m : Message)
    → (end_at (run empty_broker cs) i).peer ≡ some j
    → expired now m ≡ false
    → let b = run empty_broker cs in
      (c : ℕ) × ((end_at b j).peer ≡ some i)
      × (send now i m b ≡ offers c (fresh (wire m)))
      × (receives_on j b ≡ some c)
unfolding send receives_on
send-receives_on cs i j now m paired live =
    let b = run empty_broker cs in
    let (back, cross) = (run-Inv empty_broker cs empty_broker-Inv).linked i j paired in
    (
      (end_at b i).wq,
      back,
      rw (paired, send) (rw live refl),
      rw (back, receives_on) (rw cross refl),
    )
