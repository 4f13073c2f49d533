-- ===== src/Ws/Pending/Histories.antt =====
-- Every sequence of calls on a WebSocket listener.
use mangos_v.Prelude.{
  ℕ, ◌+◌, ◌≤◌, ◌≡◌, refl, ◌∙◌, Bool, true, false, Option, none, some, List, [], ◌∷◌, arith,
  if◌then◌else◌, sym,
}
use mangos_v.Prelude.Bytes.{Bytes}
use mangos_v.Errors.{Error, Result, ok, err}
use mangos_v.Options.{OptionName, Value}
use mangos_v.Peers.{Kind}
use mangos_v.Inproc.Pairing.{count}
use mangos_v.Core.Pipes.{contains}
use mangos_v.Ws.{
  Listener, get_option, listen, new_listener, set_option, Listened, listen_now, config_of,
  ready_for_tls, open_origin, stored,
}
use mangos_v.Ws.Settings.{WsOptions, set}
use mangos_v.Ws.Pending.{
  Event, Inv, State, accepts, accepts-Inv, closes, closes-Inv, closes_pipe, closes_pipe-Inv, gets,
  run, serves, serves-Inv, sets, starts, step,
}

-- An operation that leaves the pipes alone, and does not stop the listener.
record Leaves (l l' : Listener) : Type 0 where
  same_pending : l'.pending ≡ l.pending
  same_open : l'.open_pipes ≡ l.open_pipes
  same_next : l'.next ≡ l.next
  still : l'.running ≡ false → l.running ≡ false

Leaves-refl : (l : Listener) → Leaves l l
Leaves-refl l = record { same_pending = refl; same_open = refl; same_next = refl; still = λ e. e }

left-Inv :
    (l l' : Listener) (accepted : List ℕ) → Leaves l l' → Inv (l, accepted) → Inv (l', accepted)
left-Inv l l' accepted same i = record {
  once = λ j. rw same.same_pending (i.once j);
  fresh = λ j. rw (same.same_pending, same.same_next) (i.fresh j);
  known = λ j. rw (same.same_pending, same.same_open) (i.known j);
  stopped = λ e. same.same_pending ∙ i.stopped (same.still e);
}

stored-Leaves :
    (l : Listener) (checks : Bool) (r : Result WsOptions)
    → Leaves l (stored (record l { checks_origin = checks }) r).0
stored-Leaves l checks (ok o) = record {
  same_pending = refl;
  same_open = refl;
  same_next = refl;
  still = λ e. e;
}
stored-Leaves l checks (err e) = record {
  same_pending = refl;
  same_open = refl;
  same_next = refl;
  still = λ e. e;
}

set_option-Leaves :
    (name : OptionName) (v : Value) (l : Listener) → Leaves l (set_option name v l).0
unfolding set_option
set_option-Leaves name v l =
    stored-Leaves l (open_origin name v l.checks_origin) (set name v l.opts)

get_option-Leaves : (name : OptionName) (l : Listener) → Leaves l (get_option name l).0
unfolding get_option
get_option-Leaves (OptionName.unnamed n) l = record {
  same_pending = ground arith;
  same_open = ground arith;
  same_next = ground arith;
  still = ground arith;
}
get_option-Leaves _ l = Leaves-refl l

listen_now-Leaves :
    (ready : Listened) (bound : Option Error) (l : Listener)
    → l.pending ≡ []
    → Leaves l (listen_now ready bound l).0
listen_now-Leaves Listened.listens none l empty = record {
  same_pending = sym empty;
  same_open = refl;
  same_next = refl;
  still = ground arith;
}
listen_now-Leaves Listened.listens (some e) l empty = Leaves-refl l
listen_now-Leaves Listened.panics_listening bound l empty = Leaves-refl l
listen_now-Leaves (Listened.refused e) bound l empty = Leaves-refl l

if-Leaves :
    (b : Bool) (l : Listener) (first second : Listener × Listened)
    → Leaves l first.0
    → Leaves l second.0
    → Leaves l (if b then first else second).0
if-Leaves true l first second a b = a
if-Leaves false l first second a b = b

listen-Leaves : (bound : Option Error) (l : Listener) → l.pending ≡ [] → Leaves l (listen bound l).0
unfolding listen
listen-Leaves bound l empty =
    let ready = if l.iswss then ready_for_tls (config_of l.opts.tls_config) else Listened.listens in
    if-Leaves l.noserve l (l, Listened.listens) (listen_now ready bound l) (Leaves-refl l)
      (listen_now-Leaves ready bound l empty)

begun-Inv :
    (b : Bool) (bound : Option Error) (l : Listener) (accepted : List ℕ)
    → l.running ≡ b
    → Inv (l, accepted)
    → Inv (if b then l else (listen bound l).0, accepted)
begun-Inv true bound l accepted e i = i
begun-Inv false bound l accepted e i =
    left-Inv l (listen bound l).0 accepted (listen-Leaves bound l (i.stopped e)) i

starts-Inv : (bound : Option Error) (s : State) → Inv s → Inv (step (starts bound) s)
starts-Inv bound (l, accepted) i = begun-Inv l.running bound l accepted refl i

step-Inv : (e : Event) (s : State) → Inv s → Inv (step e s)
step-Inv (serves p) s i = serves-Inv p s i
step-Inv accepts s i = accepts-Inv s i
step-Inv closes s i = closes-Inv s i
step-Inv (closes_pipe id) s i = closes_pipe-Inv id s i
step-Inv (starts bound) s i = starts-Inv bound s i
step-Inv (sets name v) s i =
    left-Inv s.0 (set_option name v s.0).0 s.1 (set_option-Leaves name v s.0) i
step-Inv (gets name) s i = left-Inv s.0 (get_option name s.0).0 s.1 (get_option-Leaves name s.0) i

run-Inv : (es : List Event) (s : State) → Inv s → Inv (run es s)
run-Inv [] s i = i
run-Inv (e ∷ es) s i = run-Inv es (step e s) (step-Inv e s i)

first-Inv : (addr : Bytes) (k : Kind) → Inv (new_listener addr k, [])
unfolding new_listener contains
first-Inv addr k = record {
  once = λ j. ground arith;
  fresh = λ j. ground arith;
  known = λ j. ground arith;
  stopped = λ e. refl;
}

-- However the handler, `Accept`, `Listen`, both `Close`s and the options alternate on a new listener, provided
-- that `Listen` is not called on one that is running: `Accept` gives no pipe twice, nor one that it has still to give; every open pipe has
-- been given or waits for `Accept`; and on a listener that is not running every open pipe has been given.
pub accepted_once :
    (addr : Bytes) (k : Kind) (es : List Event)
    → let (l, accepted) = run es (new_listener addr k, []) in
      ((j : ℕ) → count j l.pending + count j accepted ≤ 1)
      × ((j : ℕ) → contains j l.open_pipes ≡ true → 1 ≤ count j l.pending + count j accepted)
      × (l.running ≡ false → (j : ℕ) → contains j l.open_pipes ≡ true → 1 ≤ count j accepted)
accepted_once addr k es =
    let i = run-Inv es (new_listener addr k, []) (first-Inv addr k) in
    (i.once, i.known, λ e j here. ground (arith, i.stopped e, i.known j here))
