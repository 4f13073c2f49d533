-- ===== src/Core/Pipes/Ownership.antt =====
-- Which pipes a socket's protocol sees.
use mangos_v.Prelude.{
  ℕ, ◌≡◌, refl, ap, ==_iff, Bool, true, false, Option, none, some, List, [], ◌∷◌, arith, ◌==◌,
  if◌then◌else◌,
}
use mangos_v.Core.{Operations}
use mangos_v.Core.Pipes.{Process, close_pipe, close_pipes, contains, owns, remove}
use mangos_v.Pipe.{forget}
use mangos_v.Prelude.Table.{lookup-delete}
use mangos_v.Pipe

-- What the protocol's endpoints are, seen from its calls.
pub record Endpoints {S : Type 0} (P : Operations S) : Type 0 where
  pub has : S → ℕ → Bool
  pub has_add :
      (p : S) (id j : ℕ) → has (P.add_endpoint id p) j ≡ (if id == j then true else has p j)
  pub has_remove :
      (p : S) (id j : ℕ) → has (P.remove_endpoint id p) j ≡ (if id == j then false else has p j)
  pub has_shutdown : (p : S) (j : ℕ) → has p j ≡ false → has (P.shutdown p) j ≡ false

abbrev pub is_nil_map : Option (List ℕ) → Bool
is_nil_map none = true
is_nil_map (some ids) = false

pub at_same : (f : ℕ → Bool) (id j : ℕ) → (id == j) ≡ true → f id ≡ f j
at_same f id j same = ap f ((==_iff id j).0 same)

pub contains-remove :
    (id j : ℕ) (ids : List ℕ)
    → contains j (remove id ids) ≡ (if id == j then false else contains j ids)
unfolding contains remove
contains-remove id j [] = ground arith
contains-remove id j (k ∷ ids) = ground (arith, contains-remove id j ids)

module _ {S : Type 0} (P : Operations S) (E : Endpoints P) where
  open E use {has, has_add, has_remove, has_shutdown}

  -- The protocol sees no pipe but the open ones of the socket.
  abbrev pub Sees : Process S → Type 0
  Sees w = (j : ℕ) → owns w j ≡ false → has w.socket.proto j ≡ false

  -- What `Close` of a pipe does to the pipes that the socket owns and that the protocol sees.
  pub close_pipe-owns :
      (id : ℕ) (w : Process S) (j : ℕ)
      → owns (close_pipe P id w) j ≡ (if id == j then false else owns w j)
  unfolding close_pipe Pipe.forget
  close_pipe-owns id w j = ground (arith, lookup-delete id j w.pipes.byid)

  pub close_pipe-has :
      (id : ℕ) (w : Process S) (j : ℕ)
      → Sees w
      → has (close_pipe P id w).socket.proto j ≡ (if id == j then false else has w.socket.proto j)
  unfolding close_pipe
  close_pipe-has id w j sees = ground (arith, has_remove w.socket.proto id j, sees j)

  close_pipe-Sees : (id : ℕ) (w : Process S) → Sees w → Sees (close_pipe P id w)
  close_pipe-Sees id w sees j out =
      ground (arith, close_pipe-owns id w j, close_pipe-has id w j sees, sees j)

  pub close_pipes-owns :
      (ids : List ℕ) (w : Process S) (j : ℕ)
      → owns (close_pipes P ids w) j ≡ (if contains j ids then false else owns w j)
  unfolding close_pipes contains
  close_pipes-owns [] w j = refl
  close_pipes-owns (id ∷ ids) w j =
      ground (arith, close_pipes-owns ids (close_pipe P id w) j, close_pipe-owns id w j)

  pub close_pipes-Sees : (ids : List ℕ) (w : Process S) → Sees w → Sees (close_pipes P ids w)
  unfolding close_pipes
  close_pipes-Sees [] w sees = sees
  close_pipes-Sees (id ∷ ids) w sees =
      close_pipes-Sees ids (close_pipe P id w) (close_pipe-Sees id w sees)
