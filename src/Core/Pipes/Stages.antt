-- ===== src/Core/Pipes/Stages.antt =====
-- The steps of a pipe's `Close` keep what calls of several goroutines keep of a socket's pipes.
use mangos_v.Prelude.{
  ℕ, ◌≡◌, refl, true, false, Option, none, some, List, [], ◌∷◌, ◌==◌, if◌then◌else◌, arith,
}
use mangos_v.Core.{Operations}
use mangos_v.Core.Pipes.{contains, listed, owns, removed_from}
use mangos_v.Core.Pipes.Ownership.{Endpoints, at_same, contains-remove, is_nil_map}
use mangos_v.Core.Pipes.Kept.{Course, Kept}
use mangos_v.Core.Pipes.Events.{
  close_first, endpoint_removed, pipe_forgotten, pipe_unlisted, start_close,
}
use mangos_v.Pipe.{forget}
use mangos_v.Prelude.Table.{lookup-delete}
use mangos_v.Pipe

pub contains-removed_from :
    (id j : ℕ) (pipes : Option (List ℕ))
    → contains j (listed (removed_from id pipes))
      ≡ (if id == j then false else contains j (listed pipes))
unfolding contains
contains-removed_from id j none = ground arith
contains-removed_from id j (some ids) = contains-remove id j ids

removed_from-nil :
    (id : ℕ) (pipes : Option (List ℕ)) → is_nil_map (removed_from id pipes) ≡ is_nil_map pipes
removed_from-nil id none = refl
removed_from-nil id (some ids) = refl

module _ {S : Type 0} (P : Operations S) (E : Endpoints P) where
  open E use {has, has_remove}

  pub start_close-Kept : (id : ℕ) (c : Course S) → Kept P E c → Kept P E (start_close P id c)
  unfolding start_close contains
  start_close-Kept id c h = record {
    listed_own = h.listed_own;
    own_listed = λ j. ground (arith, h.own_listed j);
    nil_when_closing = h.nil_when_closing;
    told = λ open_socket j. ground (arith, h.told open_socket j);
    known = h.known;
    leaving_own = λ j. ground (arith, at_same (owns c.process) id j, h.leaving_own j);
    removed_leaving = λ j. ground (arith, h.removed_leaving j);
    unlisted_removed = h.unlisted_removed;
  }

  -- `Close` of the socket starts to close the next of its pipes.
  pub close_first-Kept :
      (ids : List ℕ) (c : Course S) → c.unclosed ≡ ids → Kept P E c → Kept P E (close_first P ids c)
  unfolding start_close contains
  close_first-Kept [] c e h = h
  close_first-Kept (id ∷ ids) c e h =
      let k = start_close-Kept id c h in
      record {
        listed_own = k.listed_own;
        own_listed = λ j. ground (arith, at_same (owns c.process) id j, e, h.own_listed j);
        nil_when_closing = k.nil_when_closing;
        told = k.told;
        known = k.known;
        leaving_own = k.leaving_own;
        removed_leaving = k.removed_leaving;
        unlisted_removed = k.unlisted_removed;
      }

  pub endpoint_removed-Kept :
      (id : ℕ) (c : Course S)
      → contains id c.leaving ≡ true
      → Kept P E c
      → Kept P E (endpoint_removed P id c)
  unfolding endpoint_removed contains
  endpoint_removed-Kept id c leaves h = record {
    listed_own = h.listed_own;
    own_listed = h.own_listed;
    nil_when_closing = h.nil_when_closing;
    told = λ open_socket j. ground (
      arith,
      has_remove c.process.socket.proto id j,
      at_same (λ i. contains i c.leaving) id j,
      leaves,
      h.told open_socket j,
    );
    known = λ j. ground (arith, has_remove c.process.socket.proto id j, h.known j);
    leaving_own = h.leaving_own;
    removed_leaving =
        λ j. ground (arith, at_same (λ i. contains i c.leaving) id j, leaves, h.removed_leaving j);
    unlisted_removed = λ j. ground (arith, h.unlisted_removed j);
  }

  pub pipe_unlisted-Kept :
      (id : ℕ) (c : Course S)
      → contains id c.removed ≡ true
      → Kept P E c
      → Kept P E (pipe_unlisted P id c)
  unfolding pipe_unlisted contains
  pipe_unlisted-Kept id c gone h = record {
    listed_own =
        λ j. ground (arith, contains-removed_from id j c.process.socket.pipes, h.listed_own j);
    own_listed = λ j. ground (
      arith,
      contains-removed_from id j c.process.socket.pipes,
      at_same (λ i. contains i c.leaving) id j,
      gone,
      h.removed_leaving id,
      h.own_listed j,
    );
    nil_when_closing =
        ground (arith, removed_from-nil id c.process.socket.pipes, h.nil_when_closing);
    told = h.told;
    known = h.known;
    leaving_own = h.leaving_own;
    removed_leaving = h.removed_leaving;
    unlisted_removed =
        λ j. ground (arith, at_same (λ i. contains i c.removed) id j, gone, h.unlisted_removed j);
  }

  pub pipe_forgotten-Kept :
      (id : ℕ) (c : Course S)
      → contains id c.unlisted ≡ true
      → Kept P E c
      → Kept P E (pipe_forgotten P id c)
  unfolding pipe_forgotten Pipe.forget
  pipe_forgotten-Kept id c done h = record {
    listed_own = λ j. ground (
      arith,
      lookup-delete id j c.process.pipes.byid,
      contains-remove id j c.unlisted,
      at_same (λ i. contains i c.unlisted) id j,
      done,
      h.listed_own j,
    );
    own_listed = λ j. ground (
      arith,
      lookup-delete id j c.process.pipes.byid,
      contains-remove id j c.leaving,
      h.own_listed j,
    );
    nil_when_closing = h.nil_when_closing;
    told = λ open_socket j. ground (
      arith,
      lookup-delete id j c.process.pipes.byid,
      contains-remove id j c.leaving,
      h.told open_socket j,
    );
    known = λ j. ground (
      arith,
      lookup-delete id j c.process.pipes.byid,
      contains-remove id j c.removed,
      at_same (λ i. contains i c.removed) id j,
      done,
      h.unlisted_removed id,
      h.known j,
    );
    leaving_own = λ j. ground (
      arith,
      lookup-delete id j c.process.pipes.byid,
      contains-remove id j c.leaving,
      h.leaving_own j,
    );
    removed_leaving = λ j. ground (
      arith,
      contains-remove id j c.leaving,
      contains-remove id j c.removed,
      h.removed_leaving j,
    );
    unlisted_removed = λ j. ground (
      arith,
      contains-remove id j c.removed,
      contains-remove id j c.unlisted,
      h.unlisted_removed j,
    );
  }
