-- ===== src/Ws/Pending.antt =====
-- The pipes of a WebSocket listener between its handler and `Accept`.
pub mod Histories
use mangos_v.Prelude.{
  ℕ, ◌+◌, ◌≤◌, ◌≡◌, refl, ap, ◌∙◌, Bool, true, false, Option, none, some, List, [], ◌∷◌, arith,
  ◌==◌, if◌then◌else◌, Option-cases, sym, inl, inr,
}
use mangos_v.Prelude.Bytes.{Bytes}
use mangos_v.Errors.{Error, Result, ok, err}
use mangos_v.Options.{OptionName, Value}
use mangos_v.Peers.{Kind}
use mangos_v.Inproc.{split_last}
use mangos_v.Inproc.Pairing.{count, count-snoc, count-split_last, parts}
use mangos_v.Core.Pipes.{contains, remove}
use mangos_v.Core.Pipes.Ownership.{contains-remove}
use mangos_v.Ws.{
  Listener, accept, close, close_pipe, close_pipes, get_option, handle, listen, new_listener,
  set_option, Listened, listen_now, config_of, ready_for_tls, open_origin, stored,
}
use mangos_v.Ws.Settings.{WsOptions, set}

-- What happens to a listener; `Listen` is called on one that is not running.
pub data Event : Type 0 where
  serves : Bytes → Event
  accepts closes : Event
  closes_pipe : ℕ → Event
  starts : Option Error → Event
  sets : OptionName → Value → Event
  gets : OptionName → Event

-- The listener, and the pipes that `Accept` has given.
abbrev pub State : Type 0
State = Listener × List ℕ

abbrev given : Option (Result ℕ) → List ℕ → List ℕ
given (some (ok id)) accepted = id ∷ accepted
given other accepted = accepted

abbrev pub step : Event → State → State
step (serves subprotocol) (l, accepted) = ((handle subprotocol l).0, accepted)
step accepts (l, accepted) = let (l', r) = accept l in (l', given r accepted)
step closes (l, accepted) = ((close l).0, accepted)
step (closes_pipe id) (l, accepted) = (close_pipe id l, accepted)
step (starts bound) (l, accepted) = (if l.running then l else (listen bound l).0, accepted)
step (sets name v) (l, accepted) = ((set_option name v l).0, accepted)
step (gets name) (l, accepted) = ((get_option name l).0, accepted)

abbrev pub run : List Event → State → State
run [] s = s
run (e ∷ es) s = run es (step e s)

abbrev met : ℕ → State → ℕ
met j (l, accepted) = count j l.pending + count j accepted

pub record Inv (s : State) : Type 0 where
  pub once : (j : ℕ) → met j s ≤ 1
  pub fresh : (j : ℕ) → s.0.next ≤ j → met j s ≡ 0
  pub known : (j : ℕ) → contains j s.0.open_pipes ≡ true → 1 ≤ met j s
  pub stopped : s.0.running ≡ false → s.0.pending ≡ []

pub serves-Inv : (p : Bytes) (s : State) → Inv s → Inv (step (serves p) s)
unfolding handle contains
serves-Inv p (l, accepted) i = record {
  once = λ j. ground (arith, count-snoc j l.next l.pending, i.once j, i.fresh j);
  fresh = λ j. ground (arith, count-snoc j l.next l.pending, i.fresh j);
  known = λ j. ground (arith, count-snoc j l.next l.pending, i.known j);
  stopped = ground (arith, i.stopped);
}

pub accepts-Inv : (s : State) → Inv s → Inv (step accepts s)
unfolding accept
accepts-Inv (l, accepted) i = elim (Option-cases (split_last l.pending)) [
  | inl e ↦ record {
    once = λ j. ground (arith, e, i.once j);
    fresh = λ j. ground (arith, e, i.fresh j);
    known = λ j. ground (arith, e, i.known j);
    stopped = ground (arith, e, i.stopped);
  }
  | inr ((rest, x), e) ↦
      let popped : (j : ℕ) → count j l.pending ≡ count j rest + (if x == j then 1 else 0) =
        λ j. count-split_last j l.pending ∙ ap (parts j) e in
      record {
        once = λ j. ground (arith, e, popped j, i.once j);
        fresh = λ j. ground (arith, e, popped j, i.fresh j);
        known = λ j. ground (arith, e, popped j, i.known j);
        stopped = ground (arith, e, i.stopped);
      }
]

contains-close_pipes :
    (j : ℕ) (ids pipes : List ℕ)
    → contains j (close_pipes ids pipes) ≡ (if contains j ids then false else contains j pipes)
unfolding close_pipes contains
contains-close_pipes j [] pipes = refl
contains-close_pipes j (id ∷ ids) pipes =
    ground (arith, contains-close_pipes j ids (remove id pipes), contains-remove id j pipes)

count-absent : (j : ℕ) (ids : List ℕ) → contains j ids ≡ false → count j ids ≡ 0
unfolding contains
count-absent j [] none_here = refl
count-absent j (id ∷ ids) none_here = ground (arith, count-absent j ids)

pub closes-Inv : (s : State) → Inv s → Inv (step closes s)
unfolding close
closes-Inv (l, accepted) i = record {
  once = λ j. ground (arith, i.once j);
  fresh = λ j. ground (arith, i.fresh j);
  known = λ j.
      ground
        (arith, contains-close_pipes j l.pending l.open_pipes, count-absent j l.pending, i.known j);
  stopped = ground (arith, i.stopped);
}

pub closes_pipe-Inv : (id : ℕ) (s : State) → Inv s → Inv (step (closes_pipe id) s)
unfolding close_pipe
closes_pipe-Inv id (l, accepted) i = record {
  once = i.once;
  fresh = i.fresh;
  known = λ j. ground (arith, contains-remove id j l.open_pipes, i.known j);
  stopped = i.stopped;
}
