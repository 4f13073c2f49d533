-- ===== src/Core/Pipes/Histories.antt =====
-- What `Close` of a socket leaves.
use mangos_v.Prelude.{ℕ, ◌≡◌, refl, ◌∙◌, Bool, true, false, Option, none, some}
use mangos_v.Errors.{closed}
use mangos_v.Core.Pipes.Ownership.{Endpoints}
use mangos_v.Core.Pipes.Invariant.{Inv, close_open-Inv, close_open-owns, close_pipes-nil, nil_of}
use mangos_v.Core.{Operations}
use mangos_v.Core.Pipes.{
  Process, admit, close_open, close_pipe, close_socket, listed, owns, begin_close,
}

module _ {S : Type 0} (P : Operations S) (E : Endpoints P) where
  open E use {has}

  close_socket_open :
      (w : Process S) → w.socket.is_closing ≡ false → close_socket P w ≡ (close_open P w, none)
  unfolding close_socket
  close_socket_open w e = simp e refl

  close_socket_again :
      (w : Process S) → w.socket.is_closing ≡ true → close_socket P w ≡ (w, some closed)
  unfolding close_socket
  close_socket_again w e = simp e refl

  close_open-closing : (w : Process S) → (close_open P w).socket.is_closing ≡ true
  unfolding close_open begin_close
  close_open-closing w = (close_pipes-nil P E (listed w.socket.pipes) (begin_close P w)).1

  admit_closed :
      (is_linked : Bool) (hook : Option Bool) (id : ℕ) (w : Process S)
      → w.socket.pipes ≡ none
      → admit P is_linked hook id w ≡ (close_pipe P id w, false)
  unfolding admit
  admit_closed false hook id w e = refl
  admit_closed true (some false) id w e = refl
  admit_closed true (some true) id w e = simp e refl
  admit_closed true none id w e = simp e refl

  -- Closing an open socket with the invariant succeeds and leaves it and its protocol with no pipe; it
  -- cannot be closed again; and a pipe that is added later is closed at once, whatever the hook answers.
  pub close_socket-releases :
      (w : Process S) (is_linked : Bool) (hook : Option Bool) (id : ℕ)
      → Inv P E w
      → w.socket.is_closing ≡ false
      → let (w', e) = close_socket P w in
        (e ≡ none)
        × ((j : ℕ) → (owns w' j ≡ false) × (has w'.socket.proto j ≡ false))
        × (close_socket P w' ≡ (w', some closed))
        × (admit P is_linked hook id w' ≡ (close_pipe P id w', false))
  close_socket-releases w is_linked hook id h open_socket =
      let w' = close_open P w in
      let inv : Inv P E w' = close_open-Inv P E w h in
      let closed_now : w'.socket.is_closing ≡ true = close_open-closing w in
      rw (close_socket_open w open_socket) (
        refl,
        λ j. (close_open-owns P E w h j, inv.seen j ∙ close_open-owns P E w h j),
        close_socket_again w' closed_now,
        admit_closed is_linked hook id w'
            (nil_of w'.socket.pipes (inv.nil_when_closing ∙ closed_now)),
      )
