-- ===== src/Core/Pipes/Kept.antt =====
-- What stays true of a socket's pipes while calls of several goroutines come between each other's locks.
use mangos_v.Prelude.{ℕ, ◌≡◌, Bool-cases, true, false, ◌||◌, ◌&&◌, not, List, [], arith}
use mangos_v.Core.{Operations}
use mangos_v.Core.Pipes.{Process, contains, listed, owns}
use mangos_v.Core.Pipes.Ownership.{Endpoints, is_nil_map}
use mangos_v.Core.Pipes.Invariant.{Inv}

-- The process, with what its goroutines are about to do.
pub record Course (S : Type 0) : Type 0 where
  pub process : Process S
  -- The pipes that an `addPipe` is still to tell the protocol of, and those that a `Close` of the socket has
  -- taken off it and is still to close.
  pub untold : List ℕ
  pub unclosed : List ℕ
  -- The pipes that a `Close` of the pipe is under way for: all of them; those whose endpoint it has removed;
  -- and those that it has taken off the socket's list too.
  pub leaving : List ℕ
  pub removed : List ℕ
  pub unlisted : List ℕ
  -- The identifiers of which the protocol was told too late, when the endpoint of the pipe had been removed.
  pub late : List ℕ

abbrev pub at_rest : {S : Type 0} → Process S → Course S
at_rest w = record {
  process = w;
  untold = [];
  unclosed = [];
  leaving = [];
  removed = [];
  unlisted = [];
  late = [];
}

module _ {S : Type 0} (P : Operations S) (E : Endpoints P) where
  open E use {has}

  pub record Kept (c : Course S) : Type 0 where
    -- The pipes that the socket lists are open and its own.
    pub listed_own :
        (j : ℕ)
        → contains j (listed c.process.socket.pipes) ≡ true
        → (owns c.process j && not (contains j c.unlisted)) ≡ true
    -- A pipe of its own is listed, or `Close` of the socket is still to close it, or its own `Close` is
    -- under way.
    pub own_listed :
        (j : ℕ)
        → owns c.process j ≡ true
        → (contains j (listed c.process.socket.pipes)
            || (contains j c.unclosed || contains j c.leaving))
          ≡ true
    pub nil_when_closing : is_nil_map c.process.socket.pipes ≡ c.process.socket.is_closing
    -- While the socket is open, the protocol has an endpoint for each pipe that it has been told of and
    -- that is not being closed.
    pub told :
        c.process.socket.is_closing ≡ false
        → (j : ℕ) → owns c.process j ≡ true
        → (has c.process.socket.proto j || (contains j c.untold || contains j c.leaving)) ≡ true
    -- It has no others, but for those that it was told of too late.
    pub known :
        (j : ℕ)
        → has c.process.socket.proto j ≡ true
        → (owns c.process j && not (contains j c.removed) || contains j c.late) ≡ true
    -- The stages of `Close` come in their order, and the pipe has its identifier until the last.
    pub leaving_own : (j : ℕ) → contains j c.leaving ≡ true → owns c.process j ≡ true
    pub removed_leaving : (j : ℕ) → contains j c.removed ≡ true → contains j c.leaving ≡ true
    pub unlisted_removed : (j : ℕ) → contains j c.unlisted ≡ true → contains j c.removed ≡ true

  pub at_rest-Kept : (w : Process S) → Inv P E w → Kept (at_rest w)
  unfolding contains
  at_rest-Kept w h = record {
    listed_own = λ j. ground (arith, h.counted j);
    own_listed = λ j. ground (arith, h.counted j);
    nil_when_closing = h.nil_when_closing;
    told = λ _ j. ground (arith, h.seen j);
    known = λ j. ground (arith, h.seen j);
    leaving_own = λ j e. cc;
    removed_leaving = λ j e. e;
    unlisted_removed = λ j e. e;
  }

  -- Once nothing is outstanding and no call came too late, an open socket has the invariant again.
  pub settled-Inv : (w : Process S) → Kept (at_rest w) → w.socket.is_closing ≡ false → Inv P E w
  unfolding contains
  settled-Inv w h open_socket = record {
    seen = λ j. ground (
      arith,
      Bool-cases (owns w j),
      Bool-cases (has w.socket.proto j),
      h.told open_socket j,
      h.known j,
    );
    counted = λ j. ground (
      arith,
      Bool-cases (owns w j),
      Bool-cases (contains j (listed w.socket.pipes)),
      h.listed_own j,
      h.own_listed j,
    );
    nil_when_closing = h.nil_when_closing;
  }
