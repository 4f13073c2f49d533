-- ===== src/Inproc/Locked.antt =====
-- A dial to a listener of another protocol.
use mangos_v.Prelude.{
  ℕ, ◌≡◌, refl, ◌∙◌, Bool, true, false, some, List, [], ◌∷◌, arith, if◌then◌else◌,
}
use mangos_v.Inproc.{
  Broker, Listener, accept, close_listener, close_pipe, dial, failed, listen, new_listener, stuck,
  close_end, dial_at,
}
use mangos_v.Inproc.Histories.{
  Call, accepts, closes_listener, closes_pipe, dials, listens, makes_listener, run, step,
}
use mangos_v.Peers.{Kind, valid_peers}
use mangos_v.Errors.{bad_proto}
use mangos_v.Prelude.Table.{lookup}

stays_locked : (b : Broker) (c : Call) → b.locked ≡ true → (step b c).locked ≡ true
unfolding step new_listener dial listen accept close_listener close_pipe close_end
stays_locked b (makes_listener addr kind) e = e
stays_locked b (dials addr kind) e = rw e refl
stays_locked b (listens lid) e = rw e refl
stays_locked b (accepts lid) e = rw e refl
stays_locked b (closes_listener lid) e = rw e refl
stays_locked b (closes_pipe id) e = ground arith

run_locked : (b : Broker) (cs : List Call) → b.locked ≡ true → (run b cs).locked ≡ true
unfolding run
run_locked b [] e = e
run_locked b (c ∷ cs) e = run_locked (step b c) cs (stays_locked b c e)

if_false {ℓ} : {A : Type ℓ} (t : Bool) (x y : A) → t ≡ false → (if t then x else y) ≡ y
if_false t x y e = rw e refl

dial_bad :
    (b : Broker) (addr : ℕ) (kind : Kind) (lid : ℕ) (l : Listener)
    → b.locked ≡ false
    → lookup addr b.by_addr ≡ some lid
    → lookup lid b.objects ≡ some l
    → valid_peers kind l.proto ≡ false
    → dial addr kind b ≡ (record b { locked = true }, failed bad_proto)
unfolding dial
dial_bad b addr kind lid l idle found known other =
    if_false b.locked (b, stuck) _ idle
    ∙ rw (found, dial) (rw (known, dial) (rw (other, dial_at) refl))

-- What a held lock does to the calls.
calls_stuck :
    (b : Broker) (addr : ℕ) (kind : Kind) (lid : ℕ)
    → b.locked ≡ true
    → ((dial addr kind b).1 ≡ stuck)
      × ((listen lid b).1 ≡ stuck)
      × ((accept lid b).1 ≡ stuck)
      × ((close_listener lid b).1 ≡ stuck)
unfolding dial listen accept close_listener
calls_stuck b addr kind lid e = rw e (refl, refl, refl, refl)

-- `Dial` to a listener of a protocol that may not be its peer fails, and leaves the lock held: whatever
-- else is called after it, every later `Dial`, `Listen`, `Accept` and `Close` of a listener, at any
-- address, is stuck.
pub bad_dial_locks :
    (b : Broker) (addr : ℕ) (kind : Kind) (lid : ℕ) (l : Listener) (cs : List Call) (addr' : ℕ)
    (kind' : Kind) (lid' : ℕ)
    → b.locked ≡ false
    → lookup addr b.by_addr ≡ some lid
    → lookup lid b.objects ≡ some l
    → valid_peers kind l.proto ≡ false
    → let (b', answer) = dial addr kind b in
      let after = run b' cs in
      (answer ≡ failed bad_proto)
      × ((dial addr' kind' after).1 ≡ stuck)
      × ((listen lid' after).1 ≡ stuck)
      × ((accept lid' after).1 ≡ stuck)
      × ((close_listener lid' after).1 ≡ stuck)
bad_dial_locks b addr kind lid l cs addr' kind' lid' idle found known other =
    let held : (run (record b { locked = true }) cs).locked ≡ true =
      run_locked (record b { locked = true }) cs refl in
    let (no_dial, no_listen, no_accept, no_close) = calls_stuck _ addr' kind' lid' held in
    rw (dial_bad b addr kind lid l idle found known other)
      (refl, no_dial, no_listen, no_accept, no_close)
