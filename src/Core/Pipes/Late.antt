-- ===== src/Core/Pipes/Late.antt =====
-- `addPipe` tells the protocol of the new pipe after it has released the socket's lock. Here the pipe is
-- closed in between, by a port hook's owner or by the socket's close.
use mangos_v.Prelude.{ℕ, ◌≡◌, refl, ap, ◌∙◌, true, false, none, some, List, ==_refl}
use mangos_v.Core.Pipes.Ownership.{Endpoints}
use mangos_v.Core.{Operations}
use mangos_v.Core.Pipes.{Process, close_pipe, owns, announce, register, is_own}
use mangos_v.Pipe.{forget}
use mangos_v.Prelude.Table.{lookup, lookup-delete_self, lookup-insert_self}
use mangos_v.Pipe

register-owns :
    {S : Type 0} (P : Operations S) (w : Process S) (id : ℕ) (ids : List ℕ)
    → lookup id (register P id ids w).pipes.byid ≡ some true
unfolding register
register-owns P w id ids = lookup-insert_self id true w.pipes.byid

close_pipe-known :
    {S : Type 0} (P : Operations S) (w : Process S) (id : ℕ)
    → lookup id w.pipes.byid ≡ some true
    → lookup id (close_pipe P id w).pipes.byid ≡ none
unfolding close_pipe Pipe.forget
close_pipe-known P w id e = rw (e, close_pipe) (lookup-delete_self id w.pipes.byid)

close_pipe-unknown :
    {S : Type 0} (P : Operations S) (w : Process S) (id : ℕ)
    → lookup id w.pipes.byid ≡ none
    → close_pipe P id w ≡ w
unfolding close_pipe
close_pipe-unknown P w id e = rw (e, close_pipe) refl

-- The pipe that `addPipe` registered under `id`, closed before the protocol hears of it: the protocol
-- then keeps an endpoint for a pipe that the socket does not own, and closing that pipe again removes
-- nothing.
pub late_endpoint :
    {S : Type 0} (P : Operations S) (E : Endpoints P) (w : Process S) (id : ℕ) (ids : List ℕ)
    → let w' = announce P id (close_pipe P id (register P id ids w)) in
      (E.has w'.socket.proto id ≡ true) × (owns w' id ≡ false) × (close_pipe P id w' ≡ w')
unfolding announce
late_endpoint P E w id ids =
    let w1 = close_pipe P id (register P id ids w) in
    let gone : lookup id w1.pipes.byid ≡ none =
      close_pipe-known P (register P id ids w) id (register-owns P w id ids) in
    (
      E.has_add w1.socket.proto id id ∙ rw (==_refl id) refl,
      ap is_own gone,
      close_pipe-unknown P (announce P id w1) id gone,
    )
