-- ===== src/Core/Pipes/Courses.antt =====
-- What calls of several goroutines keep true of a socket's pipes, in whatever order their steps come.
use mangos_v.Prelude.{
  ℕ, ◌≡◌, refl, ==_refl, sym, ap, Bool, true, false, some, List, [], ◌∷◌, ◌++◌, ◌==◌, if◌then◌else◌,
  ◌||◌, ◌&&◌, not, arith, Bool-cases,
}
use mangos_v.Core.{Operations}
use mangos_v.Core.Pipes.{
  remove, rem_pipe, Process, add_pipe, announce, close_pipe, contains, listed, owns, shut_down,
}
use mangos_v.Core.Pipes.Ownership.{Endpoints, at_same}
use mangos_v.Core.Pipes.Invariant.{Inv, forget-owns}
use mangos_v.Core.Pipes.Kept.{Course, Kept, at_rest, at_rest-Kept}
use mangos_v.Core.Pipes.Stages.{
  close_first-Kept, endpoint_removed-Kept, pipe_forgotten-Kept, pipe_unlisted-Kept,
  start_close-Kept,
}
use mangos_v.Pipe.{Pipes, forget, new_pipe}
use mangos_v.Prelude.Table.{lookup}
use mangos_v.Pipe
use mangos_v.Core.Pipes.Events.{
  Event, adds, announces, begins_close, closes_next, starts_close, removes_endpoint, unlists_pipe,
  forgets_pipe, endpoint_removed, pipe_unlisted, pipe_forgotten, start_close, leave_pipes,
  other_adds, other_closes, run, shuts_down, step, take_out, tell,
}
use mangos_v.Core.Pipes.Admission.{entered-Kept, foreign_pipe-Kept, same_owns-Kept}

and_true : (a b : Bool) → (a && b) ≡ true → a ≡ true
and_true true b e = refl
and_true false b e = e

contains-append : (j : ℕ) (a b : List ℕ) → contains j (a ++ b) ≡ (contains j a || contains j b)
unfolding contains
contains-append j [] b = refl
contains-append j (k ∷ a) b = ground (arith, contains-append j a b)

contains-take_out :
    (id j : ℕ) (ids : List ℕ) → (id == j) ≡ false → contains j (take_out id ids) ≡ contains j ids
unfolding contains take_out
contains-take_out id j [] e = refl
contains-take_out id j (k ∷ ids) e = ground (arith, contains-take_out id j ids e)

module _ {S : Type 0} (P : Operations S) (E : Endpoints P) where
  open E use {has, has_add, has_shutdown}

  pub either-Kept :
      (b : Bool) (c c' : Course S) → Kept P E c → Kept P E c' → Kept P E (if b then c else c')
  either-Kept true c c' h h' = h
  either-Kept false c c' h h' = h'

  guarded-Kept :
      (b : Bool) (c c' : Course S)
      → (b ≡ true → Kept P E c')
      → Kept P E c
      → Kept P E (if b then c' else c)
  guarded-Kept true c c' h' h = h' refl
  guarded-Kept false c c' h' h = h

  tell-Kept : (id : ℕ) (c : Course S) → Kept P E c → Kept P E (tell P id c)
  unfolding tell announce contains
  tell-Kept id c h = record {
    listed_own = h.listed_own;
    own_listed = h.own_listed;
    nil_when_closing = h.nil_when_closing;
    told = λ open_socket j. ground (
      arith,
      has_add c.process.socket.proto id j,
      contains-take_out id j c.untold,
      h.told open_socket j,
    );
    known = λ j. ground (
      arith,
      has_add c.process.socket.proto id j,
      at_same (owns c.process) id j,
      at_same (λ i. contains i c.removed) id j,
      h.known j,
    );
    leaving_own = h.leaving_own;
    removed_leaving = h.removed_leaving;
    unlisted_removed = h.unlisted_removed;
  }

  leave_pipes-Kept : (c : Course S) → Kept P E c → Kept P E (leave_pipes P c)
  unfolding leave_pipes contains
  leave_pipes-Kept c h = record {
    listed_own = λ j e. ground arith;
    own_listed = λ j.
        ground
          (arith, contains-append j (listed c.process.socket.pipes) c.unclosed, h.own_listed j);
    nil_when_closing = refl;
    told = λ open_socket j. ground arith;
    known = h.known;
    leaving_own = h.leaving_own;
    removed_leaving = h.removed_leaving;
    unlisted_removed = h.unlisted_removed;
  }

  shut_down-Kept :
      (c : Course S)
      → c.process.socket.is_closing ≡ true
      → Kept P E c
      → Kept P E (record c { process = shut_down P c.process })
  shut_down-Kept c closing h = record {
    listed_own = h.listed_own;
    own_listed = h.own_listed;
    nil_when_closing = h.nil_when_closing;
    told = λ open_socket j. cc;
    known = λ j. ground (
      arith,
      Bool-cases (has c.process.socket.proto j),
      has_shutdown c.process.socket.proto j,
      h.known j,
    );
    leaving_own = h.leaving_own;
    removed_leaving = h.removed_leaving;
    unlisted_removed = h.unlisted_removed;
  }

  other_closes-Kept :
      (id : ℕ) (b : Bool) (c : Course S)
      → owns c.process id ≡ b
      → Kept P E c
      → Kept P E (step P (other_closes id) c)
  other_closes-Kept id true c e h = simp e h
  other_closes-Kept id false c e h =
      simp e
        (same_owns-Kept P E c (Pipe.forget id c.process.pipes) (forget-owns P E id c.process e) h)

  pub step-Kept : (e : Event) (c : Course S) → Kept P E c → Kept P E (step P e c)
  step-Kept (adds turns is_linked hook) c h =
      unfold add_pipe in
      entered-Kept P E turns is_linked hook c (Pipe.new_pipe turns false c.process.pipes) refl h
  step-Kept (other_adds turns) c h =
      foreign_pipe-Kept P E turns c (Pipe.new_pipe turns false c.process.pipes) refl h
  step-Kept (announces id) c h =
      either-Kept (contains id c.untold) (tell P id c) c (tell-Kept id c h) h
  step-Kept (starts_close id) c h = start_close-Kept P E id c h
  step-Kept (removes_endpoint id) c h =
      guarded-Kept (contains id c.leaving && not (contains id c.removed)) c
        (endpoint_removed P id c) (λ e. endpoint_removed-Kept P E id c (and_true _ _ e) h) h
  step-Kept (unlists_pipe id) c h =
      guarded-Kept (contains id c.removed && not (contains id c.unlisted)) c (pipe_unlisted P id c)
        (λ e. pipe_unlisted-Kept P E id c (and_true _ _ e) h) h
  step-Kept (forgets_pipe id) c h =
      guarded-Kept (contains id c.unlisted) c (pipe_forgotten P id c)
        (λ e. pipe_forgotten-Kept P E id c e h) h
  step-Kept (other_closes id) c h = other_closes-Kept id (owns c.process id) c refl h
  step-Kept begins_close c h =
      either-Kept c.process.socket.is_closing c (leave_pipes P c) h (leave_pipes-Kept c h)
  step-Kept shuts_down c h =
      guarded-Kept c.process.socket.is_closing c (record c { process = shut_down P c.process })
        (λ e. shut_down-Kept c e h) h
  step-Kept closes_next c h = close_first-Kept P E c.unclosed c refl h

  pub run_from-Kept : (c : Course S) (es : List Event) → Kept P E c → Kept P E (run P c es)
  unfolding run
  run_from-Kept c [] h = h
  run_from-Kept c (e ∷ es) h = run_from-Kept (step P e c) es (step-Kept e c h)

  -- Let the protocol keep its endpoints as the laws `Endpoints` say: a call adds or removes the pipe it names,
  -- and `Shutdown` adds none. Let the port hooks leave the pipe that they are asked about alone. From a
  -- process where the invariant of the socket's pipes holds and no call is under way, after any events, of
  -- any goroutines, in any order: the pipes that the socket lists are open and its own, and no `Close` has
  -- taken them off the list; an open pipe of its own is listed, or the `Close` of the socket is still to close
  -- it, or its own `Close` is under way; the socket has the nil map exactly when it is closed; while it is open, the
  -- protocol has an endpoint for each open pipe of its own, but those that `addPipe` is still to tell it of
  -- and those that a `Close` is under way for; it has an endpoint only for such a pipe whose endpoint no
  -- `Close` has removed, or for one that it was told of after that; and a pipe that a `Close` is under way for has its
  -- identifier until the last of its steps, which come in their order.
  pub run-Kept : (w : Process S) (es : List Event) → Inv P E w → Kept P E (run P (at_rest w) es)
  run-Kept w es h = run_from-Kept (at_rest w) es (at_rest-Kept P E w h)

  close_own :
      (id : ℕ) (w : Process S)
      → lookup id w.pipes.byid ≡ some true
      → close_pipe P id w
        ≡ record w { pipes = Pipe.forget id w.pipes; socket = rem_pipe P id w.socket }
  unfolding close_pipe
  close_own id w e = rw (e, close_pipe) refl

  -- The steps of a pipe's `Close`, with nothing between them, are `close_pipe`.
  closes_alone :
      (id : ℕ) (w : Process S)
      → lookup id w.pipes.byid ≡ some true
      → run P
          (at_rest w)
          (starts_close id ∷ removes_endpoint id ∷ unlists_pipe id ∷ forgets_pipe id ∷ [])
        ≡ at_rest (close_pipe P id w)
  unfolding run start_close endpoint_removed pipe_unlisted pipe_forgotten contains remove rem_pipe
  closes_alone id w e = simp (e, ==_refl id) (ap at_rest (sym (close_own id w e)))
