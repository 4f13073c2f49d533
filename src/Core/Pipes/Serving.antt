-- ===== src/Core/Pipes/Serving.antt =====
-- core.go, `serve`: the goroutine of a listener of the socket, which adds what its transport accepts.
use mangos_v.Prelude.{ℕ, true, false, Bool, Option, none, some, List, [], ◌∷◌, if◌then◌else◌}
use mangos_v.Errors.{closed, Error}
use mangos_v.Core.{Operations}
use mangos_v.Core.Pipes.{Process, add_pipe}
use mangos_v.Core.Pipes.Ownership.{Endpoints}
use mangos_v.Core.Pipes.Kept.{Course, Kept}
use mangos_v.Core.Pipes.Events.{Event, added_to, adds, announces, run}
use mangos_v.Core.Pipes.Courses.{either-Kept, run_from-Kept, step-Kept}

-- What `Accept` of the transport gives: a pipe, for which `newPipe` takes so many turns and the port hook
-- gives this answer, with the events of other goroutines between the unlock of its `addPipe` and the call
-- that ends it; or an error.
pub data Heard : Type 0 where
  arrived : ℕ → Option Bool → List Event → Heard
  fails : Error → Heard

module _ {S : Type 0} (P : Operations S) where
  -- The end of `addPipe`.
  abbrev pub finishes : Option (Process S × Option ℕ) → List Event
  finishes none = []
  finishes (some (w, none)) = []
  finishes (some (w, some id)) = announces id ∷ []

  -- What a turn of the loop does with it, and whether the loop goes on.
  abbrev pub heed : Heard → Course S → Course S × Bool
  heed (arrived turns hook meanwhile) c =
      let added = add_pipe P turns true hook c.process in
      (run P (run P (added_to P c added) meanwhile) (finishes added), true)
  heed (fails closed) c = (c, false)
  heed (fails _) c = (c, true)

  -- The loop of `serve` over what it hears, until there is nothing more to hear. Between its turns other
  -- calls may come, which the events before each turn stand for.
  unfoldable pub serve : List (List Event × Heard) → Course S → Course S
  serve [] c = c
  serve ((between, heard) ∷ more) c =
      let c' = run P c between in
      let (c'', goes_on) = heed heard c' in
      let rest = serve more c'' in
      if c'.process.socket.is_closing then c' else if goes_on then rest else c''

module _ {S : Type 0} (P : Operations S) (E : Endpoints P) where
  heed-Kept : (heard : Heard) (c : Course S) → Kept P E c → Kept P E (heed P heard c).0
  heed-Kept (arrived turns hook meanwhile) c h =
      let added = add_pipe P turns true hook c.process in
      let c' = added_to P c added in
      run_from-Kept P E (run P c' meanwhile) (finishes P added)
        (run_from-Kept P E c' meanwhile (step-Kept P E (adds turns true hook) c h))
  heed-Kept (fails closed) c h = h
  heed-Kept (fails _) c h = h

  -- A listener that serves a socket keeps what other calls keep of its pipes, whatever it hears and whatever
  -- else happens to the socket and to its pipes in between.
  pub serve-Kept :
      (heard : List (List Event × Heard)) (c : Course S) → Kept P E c → Kept P E (serve P heard c)
  unfolding serve
  serve-Kept [] c h = h
  serve-Kept ((between, heard) ∷ more) c h =
      let c' = run P c between in
      let (c'', goes_on) = heed P heard c' in
      let h' = run_from-Kept P E c between h in
      let h'' = heed-Kept heard c' h' in
      either-Kept P E c'.process.socket.is_closing c' (if goes_on then serve P more c'' else c'') h'
        (either-Kept P E goes_on (serve P more c'') c'' (serve-Kept more c'' h'') h'')
