-- ===== src/Core/Pipes/Hooks.antt =====
-- The port hook of a socket (core.go, pipe.go): which calls of it the coming and going of pipes makes.
use mangos_v.Prelude.{
  ℕ, ◌+◌, ◌≡◌, refl, ap, Bool, true, false, Option, none, some, List, [], ◌∷◌, ◌++◌, arith, ◌==◌,
  if◌then◌else◌,
}
use mangos_v.Core.{Operations}
use mangos_v.Core.Pipes.{is_own, Process, admit, register, close_pipe, owns, rem_pipe, removed_from}
use mangos_v.Core.Pipes.Ownership.{Endpoints, close_pipe-owns, is_nil_map}
use mangos_v.Core.Pipes.Invariant.{new_pipe-owns}
use mangos_v.Prelude.Table.{lookup, lookup-insert}
use mangos_v.Pipe.Identifiers.{new_pipe-unused}
use mangos_v.Pipe

-- A call of the hook: `PortActionAdd` with its answer, or `PortActionRemove`.
pub data HookCall : Type 0 where
  added : ℕ → Bool → HookCall
  removed : ℕ → HookCall

-- `SetPortHook`: the hook in force, and the one before it, which is returned; there may be none.
unfoldable pub set_port_hook :
    Option (ℕ → Bool) → Option (ℕ → Bool) → Option (ℕ → Bool) × Option (ℕ → Bool)
set_port_hook new_one old = (new_one, old)

module _ {S : Type 0} (P : Operations S) (hook : ℕ → Bool) where
  -- `addPipe` after `newPipe`, for a pipe of a dialer or a listener, up to its unlock; the call of the protocol
  -- after it calls no hook.
  abbrev pub admit_hooked : ℕ → Process S → Process S × List HookCall
  admit_hooked id w = ((admit P true (some (hook id)) id w).0, added id (hook id) ∷ [])

  -- `addPipe` up to there; while `newPipe` looks for an identifier nothing else happens.
  abbrev pub found : Process S → Option (ℕ × Pipe.Pipes Bool) → Process S × List HookCall
  found w none = (w, [])
  found w (some (id, t)) = admit_hooked id (record w { pipes = t })

  unfoldable pub add_hooked : ℕ → Process S → Process S × List HookCall
  add_hooked turns w = found w (Pipe.new_pipe turns false w.pipes)

  -- `Close` of a pipe.
  unfoldable pub close_hooked : ℕ → Process S → Process S × List HookCall
  close_hooked id w = (close_pipe P id w, if owns w id then removed id ∷ [] else [])

-- Pipes that come and pipes that are closed.
pub data PipeEvent : Type 0 where
  comes goes : ℕ → PipeEvent

module _ {S : Type 0} (P : Operations S) (hook : ℕ → Bool) where
  abbrev pub step_hooked : PipeEvent → Process S → Process S × List HookCall
  step_hooked (comes turns) w = add_hooked P hook turns w
  step_hooked (goes id) w = close_hooked P hook id w

  abbrev pub run_hooked : List PipeEvent → Process S → Process S × List HookCall
  run_hooked [] w = (w, [])
  run_hooked (e ∷ es) w =
      let (w1, calls) = step_hooked e w in let (w2, more) = run_hooked es w1 in (w2, calls ++ more)

-- How often the hook has approved of a pipe with this identifier, and heard of its removal.
abbrev pub approvals : ℕ → List HookCall → ℕ
approvals j [] = 0
approvals j (added id answer ∷ calls) =
    let rest = approvals j calls in if id == j then (if answer then rest + 1 else rest) else rest
approvals j (removed id ∷ calls) = approvals j calls

abbrev pub removals : ℕ → List HookCall → ℕ
removals j [] = 0
removals j (added id answer ∷ calls) = removals j calls
removals j (removed id ∷ calls) = let rest = removals j calls in if id == j then rest + 1 else rest

abbrev pub one_if : Bool → ℕ
one_if b = if b then 1 else 0

approvals-append :
    (j : ℕ) (a b : List HookCall) → approvals j (a ++ b) ≡ approvals j a + approvals j b
approvals-append j [] b = omega arith
approvals-append j (added id true ∷ a) b = ground (arith, approvals-append j a b)
approvals-append j (added id false ∷ a) b = ground (arith, approvals-append j a b)
approvals-append j (removed id ∷ a) b = approvals-append j a b

removals-append : (j : ℕ) (a b : List HookCall) → removals j (a ++ b) ≡ removals j a + removals j b
removals-append j [] b = omega arith
removals-append j (added id answer ∷ a) b = removals-append j a b
removals-append j (removed id ∷ a) b = ground (arith, removals-append j a b)

module _ {S : Type 0} (P : Operations S) (E : Endpoints P) (hook : ℕ → Bool) where
  -- What a step changes.
  record Balanced (w : Process S) (x : Process S × List HookCall) : Type 0 where
    still_open : is_nil_map x.0.socket.pipes ≡ false
    balance : (j : ℕ) → approvals j x.1 + one_if (owns w j) ≡ removals j x.1 + one_if (owns x.0 j)

  removed_from-open :
      (id : ℕ) (pipes : Option (List ℕ))
      → is_nil_map pipes ≡ false
      → is_nil_map (removed_from id pipes) ≡ false
  removed_from-open id none e = e
  removed_from-open id (some ids) e = refl

  close_pipe-open :
      (id : ℕ) (w : Process S)
      → is_nil_map w.socket.pipes ≡ false
      → is_nil_map (close_pipe P id w).socket.pipes ≡ false
  unfolding close_pipe rem_pipe
  close_pipe-open id w e = ground (arith, removed_from-open id w.socket.pipes e)

  goes-Balanced :
      (id : ℕ) (w : Process S)
      → is_nil_map w.socket.pipes ≡ false
      → Balanced w (step_hooked P hook (goes id) w)
  unfolding close_hooked
  goes-Balanced id w e = record {
    still_open = close_pipe-open id w e;
    balance = λ j. ground (arith, close_pipe-owns P E id w j);
  }

  register-Balanced :
      (id : ℕ) (ids : List ℕ) (w : Process S)
      → owns w id ≡ false
      → Balanced w (register P id ids w, added id true ∷ [])
  unfolding register
  register-Balanced id ids w fresh = record {
    still_open = refl;
    balance = λ j. ground (arith, lookup-insert id j true w.pipes.byid);
  }

  attached :
      (pipes : Option (List ℕ)) (id : ℕ) (w : Process S)
      → is_nil_map pipes ≡ false
      → w.socket.pipes ≡ pipes
      → owns w id ≡ false
      → Balanced w ((admit P true (some true) id w).0, added id true ∷ [])
  unfolding admit
  attached none id w e same fresh = cc
  attached (some ids) id w e same fresh = simp same (register-Balanced id ids w fresh)

  admit-Balanced :
      (answer : Bool) (id : ℕ) (w : Process S)
      → is_nil_map w.socket.pipes ≡ false
      → owns w id ≡ false
      → Balanced w ((admit P true (some answer) id w).0, added id answer ∷ [])
  admit-Balanced true id w e fresh = attached w.socket.pipes id w e refl fresh
  admit-Balanced false id w e fresh =
      unfold admit in
      record {
        still_open = close_pipe-open id w e;
        balance = λ j. ground (arith, close_pipe-owns P E id w j);
      }

  -- The identifier of a new pipe is not the socket's.
  found-Balanced :
      (turns : ℕ) (w : Process S) (r : Option (ℕ × Pipe.Pipes Bool))
      → Pipe.new_pipe turns false w.pipes ≡ r
      → is_nil_map w.socket.pipes ≡ false
      → Balanced w (found P hook w r)
  found-Balanced turns w none e nil = record { still_open = nil; balance = λ j. refl }
  found-Balanced turns w (some (id, t)) e nil =
      let (unused, put) = new_pipe-unused turns false w.pipes t id e in
      let same = new_pipe-owns P E turns w id t e in
      let fresh : is_own (lookup id t.byid) ≡ false =
        rw (put, lookup-insert id id false w.pipes.byid) (ground arith) in
      let b = admit-Balanced (hook id) id (record w { pipes = t }) nil fresh in
      record {
        still_open = b.still_open;
        balance = λ j. omega (arith, b.balance j, ap one_if (same j));
      }

  step-Balanced :
      (e : PipeEvent) (w : Process S)
      → is_nil_map w.socket.pipes ≡ false
      → Balanced w (step_hooked P hook e w)
  unfolding add_hooked
  step-Balanced (comes turns) w nil =
      found-Balanced turns w (Pipe.new_pipe turns false w.pipes) refl nil
  step-Balanced (goes id) w nil = goes-Balanced id w nil

  run-Balanced :
      (es : List PipeEvent) (w : Process S)
      → is_nil_map w.socket.pipes ≡ false
      → Balanced w (run_hooked P hook es w)
  run-Balanced [] w nil = record { still_open = nil; balance = λ j. refl }
  run-Balanced (e ∷ es) w nil =
      let (w1, calls) = step_hooked P hook e w in
      let first = step-Balanced e w nil in
      let rest = run-Balanced es w1 first.still_open in
      let more = (run_hooked P hook es w1).1 in
      record {
        still_open = rest.still_open;
        balance = λ j. omega (
          arith,
          first.balance j,
          rest.balance j,
          approvals-append j calls more,
          removals-append j calls more,
        );
      }

  -- On an open socket that has no pipe yet, with a port hook that does not change, however pipes of its dialers and
  -- listeners come and are closed while the socket stays open: for each identifier, the hook has approved of a pipe as
  -- often as it has heard of the removal of one, and once more if a pipe of that identifier is the socket's now.
  pub run_hooked-balance :
      (es : List PipeEvent) (w : Process S)
      → is_nil_map w.socket.pipes ≡ false
      → ((j : ℕ) → owns w j ≡ false)
      → let (w', calls) = run_hooked P hook es w in
        (j : ℕ) → approvals j calls ≡ removals j calls + one_if (owns w' j)
  run_hooked-balance es w nil nobody j =
      let b = run-Balanced es w nil in ground (arith, b.balance j, nobody j)
