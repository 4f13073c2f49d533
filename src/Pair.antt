-- ===== src/Pair.antt =====
-- protocol/pair/pair.go: PAIR, which talks to one peer at a time.
use mangos_v.Prelude.{
  ℕ, ◌≡◌, refl, sym, ap, ◌≢◌, inl, inr, Bool, true, false, Option, none, some, List, [], ◌∷◌, ◌==◌,
  if◌then◌else◌, ==_iff, ==_refl, Bool-cases, All,
}
use mangos_v.Options.{bool, OptionName, Value, as_bool, or_zero}
use mangos_v.Protocol.{closing, ProtocolSocket, Ready, Received, deliver, stop}
use mangos_v.Errors.{Error, Result, bad_option, bad_value, err, ok}
use mangos_v.Message.{Message}
use mangos_v.Waiter.{Waiter, add}
use mangos_v.Waiter

pub record Pair : Type 0 where
  pub sock : ProtocolSocket
  pub peer : Option ℕ  -- the identifier of its endpoint
  pub raw : Bool
  pub w : Waiter

unfoldable pub init : ProtocolSocket → Pair
unfolding Waiter.init
init sock = record { sock = sock; peer = none; raw = false; w = Waiter.init }

-- `sender`, after it took a message from the send queue: whether it goes on. `sent` tells whether
-- the endpoint's `SendMsg` succeeded; if not, the message is freed.
unfoldable pub sender : Bool → Bool
sender sent = sent

-- `receiver`: one message. There is no default case.
unfoldable pub receiver : Ready → Message → Received
receiver ready m = elim ready [ closing ↦ stop | _ ↦ deliver m ]

-- With the state, whether the endpoint is closed because there is a peer already.
unfoldable pub add_endpoint : ℕ → Pair → Pair × Bool
unfolding Waiter.add
add_endpoint id x = elim x.peer [
  | none ↦ (record x { peer = some id; w = Waiter.add x.w }, false)
  | some _ ↦ (x, true)
]

-- With the state, whether the peer's `cq` is closed.
unfoldable pub remove_endpoint : ℕ → Pair → Pair × Bool
remove_endpoint id x = elim x.peer [
  | none ↦ (x, false)
  | some p ↦ if p == id then (record x { peer = none }, true) else (x, false)
]

-- `x.raw, ok = v.(bool)`: the assignment is made also where the assertion fails.
unfoldable pub set_option : OptionName → Value → Pair → Pair × Option Error
set_option OptionName.raw v x = (
  record x { raw = or_zero false (as_bool v) },
  elim (as_bool v) [ none ↦ some bad_value | some b ↦ none ],
)
set_option _ v x = (x, some bad_option)

unfoldable pub get_option : OptionName → Pair → Result Value
get_option OptionName.raw x = ok (bool x.raw)
get_option _ x = err bad_option

-- What the socket does to its PAIR protocol: endpoints come and go, under distinct identifiers.
pub data Event : Type 0 where
  adds removes : ℕ → Event
  sets : OptionName → Value → Event

unfoldable pub step : Pair → Event → Pair
step x (adds id) = (add_endpoint id x).0
step x (removes id) = (remove_endpoint id x).0
step x (sets name v) = (set_option name v x).0

unfoldable pub run : Pair → List Event → Pair
run x [] = x
run x (e ∷ es) = run (step x e) es

step_keeps :
    (x : Pair) (p : ℕ) (e : Event) → x.peer ≡ some p → e ≢ removes p → (step x e).peer ≡ some p
unfolding step add_endpoint remove_endpoint set_option
step_keeps x p (adds id) h other = rw h refl
step_keeps x p (removes id) h other = elim (Bool-cases (p == id)) [
  | inl same ↦ absurd (other (ap removes (sym ((==_iff p id).0 same))))
  | inr differ ↦ rw (h, step, remove_endpoint) (rw differ h)
]
step_keeps x p (sets OptionName.raw v) h other = h
step_keeps x p (sets _ v) h other = h

add_busy : (x : Pair) (id p : ℕ) → x.peer ≡ some p → (add_endpoint id x).1 ≡ true
unfolding add_endpoint
add_busy x id p h = rw h refl

remove_peer :
    (x : Pair) (p id : ℕ)
    → x.peer ≡ some p
    → ((remove_endpoint p x).1 ≡ true) × ((add_endpoint id (remove_endpoint p x).0).1 ≡ false)
unfolding add_endpoint remove_endpoint
remove_peer x p id h = rw h (rw (==_refl p) (refl, refl))

run_keeps :
    (x : Pair) (p : ℕ) (es : List Event)
    → x.peer ≡ some p
    → All (λ e. e ≢ removes p) es
    → (run x es).peer ≡ some p
unfolding run
run_keeps x p [] h others = h
run_keeps x p (e ∷ es) h others = run_keeps (step x e) p es (step_keeps x p e h others.0) others.1

-- A socket without a peer takes the endpoint `p` that is added. Until `p` is removed, whatever
-- happens, `p` stays the peer and every endpoint that is added is closed; and when `p` is removed,
-- its sender is told and the next endpoint is taken.
pub run-first_peer :
    (x : Pair) (p id : ℕ) (es : List Event)
    → x.peer ≡ none
    → All (λ e. e ≢ removes p) es
    → let x' = run x (adds p ∷ es) in
      (x'.peer ≡ some p)
      × ((add_endpoint id x').1 ≡ true)
      × ((remove_endpoint p x').1 ≡ true)
      × ((add_endpoint id (remove_endpoint p x').0).1 ≡ false)
unfolding run
run-first_peer x p id es idle others =
    let kept : (run (step x (adds p)) es).peer ≡ some p =
      run_keeps (step x (adds p)) p es (unfold step add_endpoint in rw idle refl) others in
    (kept, add_busy _ id p kept, (remove_peer _ p id kept).0, (remove_peer _ p id kept).1)
