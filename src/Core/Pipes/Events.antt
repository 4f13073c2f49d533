-- ===== src/Core/Pipes/Events.antt =====
-- Calls of several goroutines on the pipes of a socket, in any order: `addPipe` comes in two steps, with its
-- unlock between them; `Close` of the socket in the step under its lock, `Shutdown` of the protocol, and the
-- start of the `Close` of each pipe that it had; and `Close` of a pipe in four steps.
use mangos_v.Prelude.{
  ℕ, Bool, false, Option, none, some, List, [], ◌∷◌, ◌++◌, ◌==◌, ◌&&◌, not, if◌then◌else◌,
}
use mangos_v.Core.{Operations}
use mangos_v.Core.Pipes.{
  Process, add_pipe, announce, contains, forget_endpoint, remove, unlist, listed, mark_closing,
  owns, shut_down,
}
use mangos_v.Core.Pipes.Kept.{Course}
use mangos_v.Pipe.{Pipes, forget, new_pipe}
use mangos_v.Pipe

pub data Event : Type 0 where
  -- `addPipe` up to its unlock, for the socket and for another socket of the process.
  adds : ℕ → Bool → Option Bool → Event
  other_adds : ℕ → Event
  -- The call of `AddEndpoint` that ends it.
  announces : ℕ → Event
  -- `Close` of a pipe of the socket, from wherever it is called: its guard, `RemoveEndpoint`, what `remPipe`
  -- does under the lock, and the return of the identifier. `Close` of a pipe that is not the socket's.
  starts_close removes_endpoint unlists_pipe forgets_pipe other_closes : ℕ → Event
  -- `Close` of the socket: under its lock, `Shutdown`, and the next of the pipes that it closes.
  begins_close shuts_down closes_next : Event

-- One occurrence less.
unfoldable pub take_out : ℕ → List ℕ → List ℕ
take_out id [] = []
take_out id (j ∷ ids) = let rest = take_out id ids in if j == id then ids else j ∷ rest

module _ {S : Type 0} (P : Operations S) where
  abbrev pub added_to : Course S → Option (Process S × Option ℕ) → Course S
  added_to c none = c
  added_to c (some (w, none)) = record c { process = w }
  added_to c (some (w, some id)) = record c { process = w; untold = id ∷ c.untold }

  abbrev pub foreign_pipe : Course S → Option (ℕ × Pipes Bool) → Course S
  foreign_pipe c none = c
  foreign_pipe c (some (id, t)) = let w = c.process in record c { process = record w { pipes = t } }

  unfoldable pub tell : ℕ → Course S → Course S
  tell id c = record c {
    process = announce P id c.process;
    untold = take_out id c.untold;
    late = if owns c.process id && not (contains id c.removed) then c.late else id ∷ c.late;
  }

  unfoldable pub leave_pipes : Course S → Course S
  leave_pipes c = record c {
    process = mark_closing P c.process;
    unclosed = listed c.process.socket.pipes ++ c.unclosed;
  }

  -- Only the first `Close` of a pipe goes on.
  unfoldable pub start_close : ℕ → Course S → Course S
  start_close id c = record c { leaving = if owns c.process id then id ∷ c.leaving else c.leaving }

  unfoldable pub endpoint_removed : ℕ → Course S → Course S
  endpoint_removed id c =
      let w = c.process in
      record c {
        process = record w { socket = forget_endpoint P id w.socket };
        removed = id ∷ c.removed;
      }

  unfoldable pub pipe_unlisted : ℕ → Course S → Course S
  pipe_unlisted id c =
      let w = c.process in
      record c { process = record w { socket = unlist P id w.socket }; unlisted = id ∷ c.unlisted }

  unfoldable pub pipe_forgotten : ℕ → Course S → Course S
  pipe_forgotten id c =
      let w = c.process in
      record c {
        process = record w { pipes = Pipe.forget id w.pipes };
        leaving = remove id c.leaving;
        removed = remove id c.removed;
        unlisted = remove id c.unlisted;
      }

  abbrev pub close_first : List ℕ → Course S → Course S
  close_first [] c = c
  close_first (id ∷ ids) c = let c' = start_close id c in record c' { unclosed = ids }

  abbrev pub step : Event → Course S → Course S
  step (adds turns is_linked hook) c = added_to c (add_pipe P turns is_linked hook c.process)
  step (other_adds turns) c = foreign_pipe c (Pipe.new_pipe turns false c.process.pipes)
  step (announces id) c = if contains id c.untold then tell id c else c
  step (starts_close id) c = start_close id c
  step (removes_endpoint id) c =
      if contains id c.leaving && not (contains id c.removed) then endpoint_removed id c else c
  step (unlists_pipe id) c =
      if contains id c.removed && not (contains id c.unlisted) then pipe_unlisted id c else c
  step (forgets_pipe id) c = if contains id c.unlisted then pipe_forgotten id c else c
  step (other_closes id) c =
      let w = c.process in
      if owns w id then c else record c { process = record w { pipes = Pipe.forget id w.pipes } }
  step begins_close c = if c.process.socket.is_closing then c else leave_pipes c
  step shuts_down c =
      if c.process.socket.is_closing then record c { process = shut_down P c.process } else c
  step closes_next c = close_first c.unclosed c

  unfoldable pub run : Course S → List Event → Course S
  run c [] = c
  run c (e ∷ es) = run (step e c) es
