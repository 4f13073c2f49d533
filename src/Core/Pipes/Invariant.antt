-- ===== src/Core/Pipes/Invariant.antt =====
-- What each operation on pipes keeps true of a socket.
use mangos_v.Prelude.{
  ℕ, ◌≡◌, refl, sym, ◌∙◌, Bool, true, false, Option, none, some, List, [], ◌∷◌, arith,
}
use mangos_v.Core.Pipes.Ownership.{
  Endpoints, Sees, close_pipe-has, close_pipe-owns, close_pipes-Sees, close_pipes-owns,
  contains-remove, is_nil_map,
}
use mangos_v.Core.{Operations}
use mangos_v.Pipe.{Pipes, forget, new_pipe}
use mangos_v.Core.Pipes.{
  Process, close_open, close_pipe, close_pipes, contains, is_own, listed, owns, rem_pipe,
  begin_close,
}
use mangos_v.Prelude.Table.{lookup, lookup-delete, lookup-insert}
use mangos_v.Pipe.Identifiers.{new_pipe-unused}
use mangos_v.Pipe

pub nil_of : (o : Option (List ℕ)) → is_nil_map o ≡ true → o ≡ none
nil_of none e = refl
nil_of (some ids) e = cc

listed_nil : (j : ℕ) (o : Option (List ℕ)) → is_nil_map o ≡ true → contains j (listed o) ≡ false
unfolding contains
listed_nil j none e = refl
listed_nil j (some ids) e = cc

module _ {S : Type 0} (P : Operations S) (E : Endpoints P) where
  open E use {has, has_add, has_remove, has_shutdown}

  -- The protocol sees the socket's open pipes, and the socket lists them; it has the nil map when it is
  -- closed.
  pub record Inv (w : Process S) : Type 0 where
    pub seen : (j : ℕ) → has w.socket.proto j ≡ owns w j
    pub counted : (j : ℕ) → contains j (listed w.socket.pipes) ≡ owns w j
    pub nil_when_closing : is_nil_map w.socket.pipes ≡ w.socket.is_closing

  Inv-Sees : (w : Process S) → Inv w → Sees P E w
  Inv-Sees w h j out = h.seen j ∙ out

  close_pipe-listed :
      (id : ℕ) (w : Process S) (j : ℕ)
      → contains j (listed w.socket.pipes) ≡ owns w j
      → contains j (listed (close_pipe P id w).socket.pipes) ≡ owns (close_pipe P id w) j
  unfolding close_pipe rem_pipe Pipe.forget contains
  close_pipe-listed id w j e =
      ground (arith, lookup-delete id j w.pipes.byid, contains-remove id j (listed w.socket.pipes))

  pub close_pipe-nil :
      (id : ℕ) (w : Process S)
      → (is_nil_map (close_pipe P id w).socket.pipes ≡ is_nil_map w.socket.pipes)
        × ((close_pipe P id w).socket.is_closing ≡ w.socket.is_closing)
  unfolding close_pipe rem_pipe
  close_pipe-nil id w = ground arith

  pub close_pipe-Inv : (id : ℕ) (w : Process S) → Inv w → Inv (close_pipe P id w)
  close_pipe-Inv id w h = record {
    seen = λ j.
        ground
          (arith, close_pipe-owns P E id w j, close_pipe-has P E id w j (Inv-Sees w h), h.seen j);
    counted = λ j. close_pipe-listed id w j (h.counted j);
    nil_when_closing = ground (arith, close_pipe-nil id w, h.nil_when_closing);
  }

  -- A pipe that is not the socket's changes nothing for it.
  pub same_owns-Inv :
      (w : Process S) (t : Pipes Bool)
      → ((j : ℕ) → is_own (lookup j t.byid) ≡ owns w j)
      → Inv w
      → Inv (record w { pipes = t })
  same_owns-Inv w t same h = record {
    seen = λ j. h.seen j ∙ sym (same j);
    counted = λ j. h.counted j ∙ sym (same j);
    nil_when_closing = h.nil_when_closing;
  }

  pub new_pipe-owns :
      (turns : ℕ) (w : Process S) (id : ℕ) (t : Pipes Bool)
      → Pipe.new_pipe turns false w.pipes ≡ some (id, t)
      → (j : ℕ) → is_own (lookup j t.byid) ≡ owns w j
  new_pipe-owns turns w id t e j =
      let (unused, put) = new_pipe-unused turns false w.pipes t id e in
      rw (put, lookup-insert id j false w.pipes.byid) (ground arith)

  pub forget-owns :
      (id : ℕ) (w : Process S)
      → owns w id ≡ false
      → (j : ℕ) → is_own (lookup j (Pipe.forget id w.pipes).byid) ≡ owns w j
  unfolding Pipe.forget
  forget-owns id w e j = ground (arith, lookup-delete id j w.pipes.byid)

  pub close_pipes-nil :
      (ids : List ℕ) (w : Process S)
      → (is_nil_map (close_pipes P ids w).socket.pipes ≡ is_nil_map w.socket.pipes)
        × ((close_pipes P ids w).socket.is_closing ≡ w.socket.is_closing)
  unfolding close_pipes
  close_pipes-nil [] w = (refl, refl)
  close_pipes-nil (id ∷ ids) w =
      ground (arith, close_pipes-nil ids (close_pipe P id w), close_pipe-nil id w)

  pub close_pipes-Inv :
      (ids : List ℕ) (w : Process S)
      → is_nil_map w.socket.pipes ≡ true
      → w.socket.is_closing ≡ true
      → Sees P E w
      → ((j : ℕ) → owns (close_pipes P ids w) j ≡ false)
      → Inv (close_pipes P ids w)
  unfolding contains
  close_pipes-Inv ids w nil_map closing sees none_left =
      let (nil', closing') = close_pipes-nil ids w in
      record {
        seen = λ j. close_pipes-Sees P E ids w sees j (none_left j) ∙ sym (none_left j);
        counted = λ j. listed_nil j _ (nil' ∙ nil_map) ∙ sym (none_left j);
        nil_when_closing = nil' ∙ nil_map ∙ sym (closing' ∙ closing);
      }

  begin_close-Sees : (w : Process S) → Inv w → Sees P E (begin_close P w)
  unfolding begin_close
  begin_close-Sees w h j out = has_shutdown w.socket.proto j (h.seen j ∙ out)

  -- A closed socket owns no pipe.
  pub close_open-owns : (w : Process S) → Inv w → (j : ℕ) → owns (close_open P w) j ≡ false
  unfolding close_open begin_close
  close_open-owns w h j =
      ground (arith, close_pipes-owns P E (listed w.socket.pipes) (begin_close P w) j, h.counted j)

  pub close_open-Inv : (w : Process S) → Inv w → Inv (close_open P w)
  unfolding close_open begin_close
  close_open-Inv w h =
      close_pipes-Inv (listed w.socket.pipes) (begin_close P w) refl refl (begin_close-Sees w h)
        (close_open-owns w h)
