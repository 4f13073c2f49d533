-- ===== src/Core/Pipes.antt =====
-- Pipes come to a socket and go: `addPipe`, `remPipe` and `Close` of core.go, and `newPipe` and `Close`
-- of pipe.go. Of each open pipe of the process, `byid` tells whether its `sock` is this socket.
pub mod Ownership
pub mod Histories
pub mod Kept
pub mod Events
pub mod Stages
pub mod Admission
pub mod Courses
pub mod Serving
pub mod Late
pub mod Hooks
pub mod Instances
pub mod Invariant
use mangos_v.Prelude.{
  ℕ, Bool, true, false, ◌||◌, not, Option, none, some, List, [], ◌∷◌, ◌==◌, if◌then◌else◌,
}
use mangos_v.Errors.{closed, Error}
use mangos_v.Core.{Operations, Socket}
use mangos_v.Pipe.{Pipes, forget, new_pipe}
use mangos_v.Prelude.Table.{insert, lookup}
use mangos_v.Pipe

pub record Process (S : Type 0) : Type 0 where
  pub pipes : Pipes Bool
  pub socket : Socket S

abbrev pub is_own : Option Bool → Bool
is_own none = false
is_own (some b) = b

-- The pipe `id` is open and the socket's.
abbrev pub owns : {S : Type 0} → Process S → ℕ → Bool
owns w id = is_own (lookup id w.pipes.byid)

unfoldable pub contains : ℕ → List ℕ → Bool
contains id [] = false
contains id (j ∷ ids) = let rest = contains id ids in j == id || rest

-- `delete(sock.pipes, p)`.
unfoldable pub remove : ℕ → List ℕ → List ℕ
remove id [] = []
remove id (j ∷ ids) = let rest = remove id ids in if j == id then rest else j ∷ rest

abbrev pub listed : Option (List ℕ) → List ℕ
listed none = []
listed (some ids) = ids

abbrev pub removed_from : ℕ → Option (List ℕ) → Option (List ℕ)
removed_from id none = none
removed_from id (some ids) = some (remove id ids)

module _ {S : Type 0} (P : Operations S) where
  -- `remPipe`: the call of `RemoveEndpoint`, and what is done under the lock after it.
  abbrev pub forget_endpoint : ℕ → Socket S → Socket S
  forget_endpoint id s = record s { proto = P.remove_endpoint id s.proto }

  abbrev pub unlist : ℕ → Socket S → Socket S
  unlist id s = record s { pipes = removed_from id s.pipes }

  unfoldable pub rem_pipe : ℕ → Socket S → Socket S
  rem_pipe id s = unlist id (forget_endpoint id s)

  -- `Close` of the pipe `id`; a pipe that is closed already stays as it is.
  unfoldable pub close_pipe : ℕ → Process S → Process S
  unfolding rem_pipe
  close_pipe id w = elim (lookup id w.pipes.byid) [
    | none ↦ w
    | some false ↦ record w { pipes = Pipe.forget id w.pipes }
    | some true ↦ record w { pipes = Pipe.forget id w.pipes; socket = rem_pipe id w.socket }
  ]

  -- The end of `addPipe`, where the socket is open: up to its unlock, and the call of `AddEndpoint` after it.
  unfoldable pub register : ℕ → List ℕ → Process S → Process S
  register id ids w =
      let s = w.socket in
      let t = w.pipes in
      record w {
        pipes = record t { byid = insert id true t.byid };
        socket = record s { pipes = some (id ∷ ids) };
      }

  unfoldable pub announce : ℕ → Process S → Process S
  announce id w =
      let s = w.socket in record w { socket = record s { proto = P.add_endpoint id s.proto } }

  -- `addPipe` after `newPipe`, up to its unlock. There may be a port hook, with its answer. The result tells
  -- whether `addPipe` goes on to tell the protocol, which `announce` does.
  unfoldable pub admit : Bool → Option Bool → ℕ → Process S → Process S × Bool
  unfolding register close_pipe
  admit is_linked hook id w =
      let refused_pipe : Process S × Bool = (close_pipe id w, false) in
      if not is_linked then refused_pipe else elim hook [
        | some false ↦ refused_pipe
        | _ ↦ elim w.socket.pipes [ none ↦ refused_pipe | some ids ↦ (register id ids w, true) ]
      ]

  -- `addPipe` up to its unlock, with the identifier that it goes on to tell the protocol, if there is one;
  -- `none` if so many turns of the loop of `newPipe` do not suffice.
  abbrev pub to_tell : ℕ → Process S × Bool → Process S × Option ℕ
  to_tell id (w, taken_in) = (w, if taken_in then some id else none)

  abbrev pub entered :
      Bool → Option Bool → Process S → Option (ℕ × Pipes Bool) → Option (Process S × Option ℕ)
  entered is_linked hook w none = none
  entered is_linked hook w (some (id, t)) =
      some (to_tell id (admit is_linked hook id (record w { pipes = t })))

  unfoldable pub add_pipe : ℕ → Bool → Option Bool → Process S → Option (Process S × Option ℕ)
  add_pipe turns is_linked hook w = entered is_linked hook w (Pipe.new_pipe turns false w.pipes)

  unfoldable pub close_pipes : List ℕ → Process S → Process S
  close_pipes [] w = w
  close_pipes (id ∷ ids) w = close_pipes ids (close_pipe id w)

  -- `Close` of the socket, after its waits; the send queue is as the drains leave it. First what it does under
  -- the socket's lock, then `Shutdown` of the protocol.
  abbrev pub mark_closing : Process S → Process S
  mark_closing w =
      let s = w.socket in record w { socket = record s { is_closing = true; pipes = none } }

  abbrev pub shut_down : Process S → Process S
  shut_down w = let s = w.socket in record w { socket = record s { proto = P.shutdown s.proto } }

  begin_close : Process S → Process S
  begin_close w = shut_down (mark_closing w)

  unfoldable pub close_open : Process S → Process S
  unfolding begin_close
  close_open w = close_pipes (listed w.socket.pipes) (begin_close w)

  unfoldable pub close_socket : Process S → Process S × Option Error
  unfolding close_open
  close_socket w = if w.socket.is_closing then (w, some closed) else (close_open w, none)
