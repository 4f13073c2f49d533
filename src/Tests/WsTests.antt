-- ===== src/Tests/WsTests.antt =====
-- The WebSocket transport at concrete inputs.
use mangos_v.Prelude.{
  ℕ, ◌≡◌, ◌≤◌, ◌+◌, refl, ◌⊎◌, ◌↔◌, inl, inr, Bool, true, false, none, some, List, [], ◌∷◌, ◌++◌,
  In, if◌then◌else◌, Bool-cases, arith,
}
use mangos_v.Prelude.Bytes.{Bytes}
use mangos_v.Prelude.Strings.{equal, equal_iff}
use mangos_v.Peers.{name, rep, req, valid_peers}
use mangos_v.Inproc.Pairing.{count}
use mangos_v.Core.Pipes.{contains}
use mangos_v.Ws.{Listener, handle, new_listener, requested, suffix, supported}
use mangos_v.Ws.Names.{Upgrader, handle-valid_peers}
use mangos_v.Ws.Pending.{Event, run}
use mangos_v.Ws.Pending.Histories.{accepted_once}

-- "ws://a".
abbrev here : Bytes
here = b'w' ∷ b's' ∷ b':' ∷ b'/' ∷ b'/' ∷ b'a' ∷ []

abbrev rep_name : Bytes
rep_name = name rep ++ suffix

-- Two connections, of which the second has another subprotocol, and one call of Accept.
abbrev events : List Event
events =
    Event.starts none ∷ Event.serves rep_name ∷ Event.serves [] ∷ Event.accepts ∷ Event.closes ∷ []

accepted_once_example :
    let (l, accepted) = run events (new_listener here rep, []) in
    ((j : ℕ) → count j l.pending + count j accepted ≤ 1)
    × ((j : ℕ) → contains j l.open_pipes ≡ true → 1 ≤ count j l.pending + count j accepted)
    × (l.running ≡ false → (j : ℕ) → contains j l.open_pipes ≡ true → 1 ≤ count j accepted)
accepted_once_example = accepted_once here rep events

abbrev listener : Listener
listener = new_listener here rep

-- An upgrader that takes the first name of the client's that the server has.
abbrev named : Bytes → List Bytes → Bool
named p [] = false
named p (q ∷ qs) = if equal q p then true else named p qs

abbrev first_common : List Bytes → List Bytes → Bytes
first_common [] server = []
first_common (p ∷ client) server = if named p server then p else first_common client server

named-In : (p : Bytes) (qs : List Bytes) → named p qs ≡ true → In p qs
named-In p [] e = cc
named-In p (q ∷ qs) e = elim (Bool-cases (equal q p)) [
  | inl same ↦ inl ((equal_iff q p).0 same)
  | inr other ↦ inr (named-In p qs (rw other at e))
]

In-named : (p : Bytes) (qs : List Bytes) → In p qs → named p qs ≡ true
In-named p [] m = elim m [ ]
In-named p (q ∷ qs) (inl e) = rw ((equal_iff q p).1 e) refl
In-named p (q ∷ qs) (inr m) = ground (arith, In-named p qs m)

abbrev Chosen : Bytes → List Bytes → List Bytes → Type 0
Chosen p client server =
    (In p client × In p server) ⊎ ((p ≡ []) × ((q : Bytes) → In q client → In q server → ⊥))

different : (q : Bytes) (server : List Bytes) → named q server ≡ false → named q server ≡ true → ⊥
different q server e h = cc

one_more :
    (b : Bool) (p x : Bytes) (client server : List Bytes)
    → named p server ≡ b
    → Chosen x client server
    → Chosen (if b then p else x) (p ∷ client) server
one_more true p x client server e c = inl (inl refl, named-In p server e)
one_more false p x client server e (inl (here, there)) = inl (inr here, there)
one_more false p x client server e (inr (nothing, none_common)) = inr (
  nothing,
  λ q m there. elim m [
    | inl same ↦ absurd (different q server (rw same at e) (In-named q server there))
    | inr m' ↦ none_common q m' there
  ],
)

first_common-Chosen :
    (client server : List Bytes) → Chosen (first_common client server) client server
first_common-Chosen [] server = inr (refl, λ q m there. elim m [ ])
first_common-Chosen (p ∷ client) server =
    one_more (named p server) p (first_common client server) client server refl
      (first_common-Chosen client server)

abbrev upgrader : Upgrader
upgrader = record { choose = first_common; chosen = first_common-Chosen }

abbrev running_listener : Listener
running_listener = record listener { running = true }

handle-valid_peers_example :
    ((handle (upgrader.choose (requested req) (supported rep)) running_listener).1 ≡ some 0)
    ↔ (valid_peers req rep ≡ true)
unfolding new_listener
handle-valid_peers_example = handle-valid_peers upgrader req running_listener refl
