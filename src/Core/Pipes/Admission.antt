-- ===== src/Core/Pipes/Admission.antt =====
-- `addPipe` up to its unlock keeps what calls of several goroutines keep of a socket's pipes.
use mangos_v.Prelude.{
  ℕ, ◌≡◌, refl, ==_refl, ap, Bool, true, false, Option, none, some, List, ◌∷◌, arith, Bool-cases,
}
use mangos_v.Core.{Operations}
use mangos_v.Core.Pipes.{admit, close_pipe, contains, entered, is_own, owns, register, to_tell}
use mangos_v.Core.Pipes.Ownership.{Endpoints, at_same}
use mangos_v.Core.Pipes.Invariant.{forget-owns, new_pipe-owns}
use mangos_v.Core.Pipes.Kept.{Course, Kept}
use mangos_v.Core.Pipes.Stages.{}
use mangos_v.Pipe.Identifiers.{new_pipe-unused}
use mangos_v.Pipe.{Pipes, forget, new_pipe}
use mangos_v.Prelude.Table.{lookup, lookup-insert}
use mangos_v.Pipe
use mangos_v.Core.Pipes.Events.{added_to, foreign_pipe}

module _ {S : Type 0} (P : Operations S) (E : Endpoints P) where
  pub same_owns-Kept :
      (c : Course S) (t : Pipes Bool)
      → ((j : ℕ) → is_own (lookup j t.byid) ≡ owns c.process j)
      → Kept P E c
      → let w = c.process in Kept P E (record c { process = record w { pipes = t } })
  same_owns-Kept c t same h = record {
    listed_own = λ j. ground (arith, same j, h.listed_own j);
    own_listed = λ j. ground (arith, same j, h.own_listed j);
    nil_when_closing = h.nil_when_closing;
    told = λ open_socket j. ground (arith, same j, h.told open_socket j);
    known = λ j. ground (arith, same j, h.known j);
    leaving_own = λ j. ground (arith, same j, h.leaving_own j);
    removed_leaving = h.removed_leaving;
    unlisted_removed = h.unlisted_removed;
  }

  -- A pipe that is not the socket's is closed in one step.
  refused_as-Kept :
      (id : ℕ) (o : Option Bool) (c : Course S)
      → lookup id c.process.pipes.byid ≡ o
      → is_own o ≡ false
      → Kept P E c
      → Kept P E (record c { process = close_pipe P id c.process })
  unfolding close_pipe
  refused_as-Kept id none c e out h =
      let gone : close_pipe P id c.process ≡ c.process = rw (e, close_pipe) refl in rw gone h
  refused_as-Kept id (some false) c e out h =
      let w = c.process in
      let forgotten : close_pipe P id w ≡ record w { pipes = Pipe.forget id w.pipes } =
        rw (e, close_pipe) refl in
      rw forgotten
        (same_owns-Kept c (Pipe.forget id w.pipes) (forget-owns P E id w (ap is_own e)) h)
  refused_as-Kept id (some true) c e out h = cc

  refused-Kept :
      (id : ℕ) (c : Course S)
      → owns c.process id ≡ false
      → Kept P E c
      → Kept P E (record c { process = close_pipe P id c.process })
  refused-Kept id c out h = refused_as-Kept id (lookup id c.process.pipes.byid) c refl out h

  -- No `Close` is under way for a pipe that is not the socket's.
  not_unlisted :
      (id : ℕ) (c : Course S)
      → owns c.process id ≡ false
      → Kept P E c
      → contains id c.unlisted ≡ false
  not_unlisted id c out h = ground (
    arith,
    Bool-cases (contains id c.unlisted),
    h.unlisted_removed id,
    h.removed_leaving id,
    h.leaving_own id,
  )

  register-Kept :
      (id : ℕ) (ids : List ℕ) (c : Course S)
      → c.process.socket.pipes ≡ some ids
      → owns c.process id ≡ false
      → Kept P E c
      → Kept P E (record c { process = register P id ids c.process; untold = id ∷ c.untold })
  unfolding register contains
  register-Kept id ids c e out h = record {
    listed_own = λ j. ground (
      arith,
      lookup-insert id j true c.process.pipes.byid,
      at_same (λ i. contains i c.unlisted) id j,
      not_unlisted id c out h,
      e,
      h.listed_own j,
    );
    own_listed =
        λ j. ground (arith, lookup-insert id j true c.process.pipes.byid, e, h.own_listed j);
    nil_when_closing = ground (arith, e, h.nil_when_closing);
    told = λ open_socket j.
        ground (arith, lookup-insert id j true c.process.pipes.byid, h.told open_socket j);
    known = λ j. ground (
      arith,
      lookup-insert id j true c.process.pipes.byid,
      at_same (owns c.process) id j,
      out,
      h.known j,
    );
    leaving_own =
        λ j. ground (arith, lookup-insert id j true c.process.pipes.byid, h.leaving_own j);
    removed_leaving = h.removed_leaving;
    unlisted_removed = h.unlisted_removed;
  }

  admit_pipes-Kept :
      (id : ℕ) (pipes : Option (List ℕ)) (is_linked : Bool) (hook : Option Bool) (c : Course S)
      → c.process.socket.pipes ≡ pipes
      → owns c.process id ≡ false
      → Kept P E c
      → Kept P E (added_to P c (some (to_tell P id (admit P is_linked hook id c.process))))
  unfolding admit
  admit_pipes-Kept id pipes false hook c e out h = refused-Kept id c out h
  admit_pipes-Kept id pipes true (some false) c e out h = refused-Kept id c out h
  admit_pipes-Kept id none true (some true) c e out h = simp e (refused-Kept id c out h)
  admit_pipes-Kept id (some ids) true (some true) c e out h =
      simp e (register-Kept id ids c e out h)
  admit_pipes-Kept id none true none c e out h = simp e (refused-Kept id c out h)
  admit_pipes-Kept id (some ids) true none c e out h = simp e (register-Kept id ids c e out h)

  pub entered-Kept :
      (turns : ℕ) (is_linked : Bool) (hook : Option Bool) (c : Course S)
      (r : Option (ℕ × Pipes Bool))
      → Pipe.new_pipe turns false c.process.pipes ≡ r
      → Kept P E c
      → Kept P E (added_to P c (entered P is_linked hook c.process r))
  entered-Kept turns is_linked hook c none e h = h
  entered-Kept turns is_linked hook c (some (id, t)) e h =
      let w = c.process in
      let (unused, put) = new_pipe-unused turns false w.pipes t id e in
      let fresh : is_own (lookup id t.byid) ≡ false =
        rw (put, lookup-insert id id false w.pipes.byid, ==_refl id) refl in
      admit_pipes-Kept id w.socket.pipes is_linked hook
        (record c { process = record w { pipes = t } }) refl fresh
        (same_owns-Kept c t (new_pipe-owns P E turns w id t e) h)

  pub foreign_pipe-Kept :
      (turns : ℕ) (c : Course S) (r : Option (ℕ × Pipes Bool))
      → Pipe.new_pipe turns false c.process.pipes ≡ r
      → Kept P E c
      → Kept P E (foreign_pipe P c r)
  foreign_pipe-Kept turns c none e h = h
  foreign_pipe-Kept turns c (some (id, t)) e h =
      same_owns-Kept c t (new_pipe-owns P E turns c.process id t e) h
