-- ===== src/Core/Addresses/Active.antt =====
-- A socket that has dialed or listened, and its queues.
use mangos_v.Prelude.{◌≡◌, refl, ◌∙◌, true, none, some, Bool, false, arith, List, [], ◌∷◌, Option}
use mangos_v.Prelude.Bytes.{Bytes}
use mangos_v.Errors.{Error, Result, err, ok, bad_option}
use mangos_v.Options.{OptionName, Value, as_bool, as_duration, as_int}
use mangos_v.Core.{Operations, Socket}
use mangos_v.Core.Addresses.{
  bound, listen, Sites, dial_options, listen_options, listen, activate, start_dialing,
  start_listening, Transport, new_dialer, new_listener,
}
use mangos_v.Redial.{Dialer}
use mangos_v.Prelude.Int.{ℤ}
use mangos_v.Redial
use mangos_v.Options
use mangos_v.Core.Options as Own

-- The socket is active, and its queues are those of the other socket.
abbrev SameQueues : {S : Type 0} → Socket S → Socket S → Type 0
SameQueues s s' =
    (s'.active ≡ true)
    × (s'.uwq ≡ s.uwq)
    × (s'.urq ≡ s.urq)
    × (s'.uwq_len ≡ s.uwq_len)
    × (s'.urq_len ≡ s.urq_len)

same : {S : Type 0} (s : Socket S) → s.active ≡ true → SameQueues s s
same s active = (active, refl, refl, refl, refl)

module _ {S : Type 0} (P : Operations S) where
  set_duration-SameQueues :
      (d : Option ℤ) (s : Socket S) (store : ℤ → Socket S)
      → SameQueues s s
      → ((x : ℤ) → SameQueues s (store x))
      → SameQueues s (Own.set_duration P d s store).0
  unfolding Own.set_duration
  set_duration-SameQueues none s store same stored = same
  set_duration-SameQueues (some d) s store same stored = stored d

  set_max_recv_size-SameQueues :
      (n : Option ℤ) (s : Socket S) → s.active ≡ true → SameQueues s (Own.set_max_recv_size P n s).0
  unfolding Own.set_max_recv_size
  set_max_recv_size-SameQueues none s active = same s active
  set_max_recv_size-SameQueues (some n) s active = ground (arith, active)

  set_best_effort-SameQueues :
      (b : Option Bool) (s : Socket S)
      → s.active ≡ true
      → SameQueues s (Own.set_best_effort P b s).0
  unfolding Own.set_best_effort
  set_best_effort-SameQueues none s active = same s active
  set_best_effort-SameQueues (some b) s active = same s active

  own_option-SameQueues :
      (matched : Bool) (name : OptionName) (v : Value) (s : Socket S)
      → s.active ≡ true
      → SameQueues s (Own.own_option P matched name v s).0
  unfolding Own.own_option
  own_option-SameQueues matched Options.recv_deadline v s active =
      set_duration-SameQueues (as_duration v) s (λ d. record s { rdeadline = d }) (same s active)
        (λ d. same s active)
  own_option-SameQueues matched Options.send_deadline v s active =
      set_duration-SameQueues (as_duration v) s (λ d. record s { wdeadline = d }) (same s active)
        (λ d. same s active)
  own_option-SameQueues matched Options.linger v s active =
      set_duration-SameQueues (as_duration v) s (λ d. record s { linger = d }) (same s active)
        (λ d. same s active)
  own_option-SameQueues matched Options.reconnect_time v s active =
      set_duration-SameQueues (as_duration v) s (λ d. record s { reconntime = d }) (same s active)
        (λ d. same s active)
  own_option-SameQueues matched Options.max_reconnect_time v s active =
      set_duration-SameQueues (as_duration v) s (λ d. record s { reconnmax = d }) (same s active)
        (λ d. same s active)
  own_option-SameQueues matched Options.write_q_len v s active =
      rw active (refl, refl, refl, refl, refl)
  own_option-SameQueues matched Options.read_q_len v s active =
      rw active (refl, refl, refl, refl, refl)
  own_option-SameQueues matched Options.max_recv_size v s active =
      set_max_recv_size-SameQueues (as_int v) s active
  own_option-SameQueues matched Options.best_effort v s active =
      set_best_effort-SameQueues (as_bool v) s active
  own_option-SameQueues matched _ v s active = same s active

  after_protocol-SameQueues :
      (e : Option Error) (name : OptionName) (v : Value) (s : Socket S)
      → s.active ≡ true
      → SameQueues s (Own.after_protocol P e name v s).0
  unfolding Own.after_protocol
  after_protocol-SameQueues none name v s active = own_option-SameQueues true name v s active
  after_protocol-SameQueues (some bad_option) name v s active =
      own_option-SameQueues false name v s active
  after_protocol-SameQueues (some _) name v s active = same s active

  set_option-SameQueues :
      (name : OptionName) (v : Value) (s : Socket S)
      → s.active ≡ true
      → SameQueues s (Own.set_option P name v s).0
  unfolding Own.set_option
  set_option-SameQueues name v s active =
      after_protocol-SameQueues (P.set_option name v s.proto).1 name v
        (record s { proto = (P.set_option name v s.proto).0 }) active

  -- Several calls of `SetOption`, whatever their results.
  abbrev pub set_options : List (OptionName × Value) → Socket S → Socket S
  set_options [] s = s
  set_options ((name, v) ∷ more) s = set_options more (Own.set_option P name v s).0

  set_options-SameQueues :
      (settings : List (OptionName × Value)) (s : Socket S)
      → s.active ≡ true
      → SameQueues s (set_options settings s)
  set_options-SameQueues [] s active = same s active
  set_options-SameQueues ((name, v) ∷ more) s active =
      let (still, u, r, ul, rl) = set_option-SameQueues name v s active in
      let (active', u', r', ul', rl') =
        set_options-SameQueues more (Own.set_option P name v s).0 still in
      (active', u' ∙ u, r' ∙ r, ul' ∙ ul, rl' ∙ rl)

-- What follows a `Dial` or a `Listen` of the socket that succeeds.
pub data Starts {S D L : Type 0} (w : Sites S D L) : Sites S D L → Type 0 where
  dials :
      (addr : Bytes) (options : List (OptionName × Value)) (d : D × Dialer)
      → (dial_options addr options w).1 ≡ ok d
      → Starts w (dial_options addr options w).0
  listens :
      (addr : Bytes) (options : List (OptionName × Value))
      → (listen_options addr options w).1 ≡ none
      → Starts w (listen_options addr options w).0

start_dialing-socket :
    {S D L : Type 0} (r : Result D) (w : Sites S D L) (d : D × Dialer)
    → (start_dialing r w).1 ≡ ok d
    → (start_dialing r w).0.socket ≡ activate w.socket
unfolding start_dialing Redial.dial Redial.new_dialer
start_dialing-socket (err e) w d h = cc
start_dialing-socket (ok x) w d h = refl

bound-socket :
    {S D L : Type 0} (r : Result L) (w : Sites S D L)
    → (bound r w).1 ≡ none
    → (bound r w).0.socket ≡ activate w.socket
bound-socket (err e) w h = cc
bound-socket (ok l) w h = refl

start_listening-socket :
    {S D L : Type 0} (r : Result (Transport D L × L)) (w : Sites S D L)
    → (start_listening r w).1 ≡ none
    → (start_listening r w).0.socket ≡ activate w.socket
unfolding start_listening listen
start_listening-socket (err e) w h = cc
start_listening-socket (ok (t, l)) w h = bound-socket (t.bind l) w h

-- Once a dial or a listen of the socket has succeeded, no calls of `SetOption`, whatever their names, their
-- values and their results, change or replace its queues: what is queued stays queued.
pub started-keeps_queues :
    {S D L : Type 0} (P : Operations S) (w w' : Sites S D L) (settings : List (OptionName × Value))
    → Starts w w'
    → let s = set_options P settings w'.socket in
      (s.active ≡ true)
      × (s.uwq ≡ w.socket.uwq)
      × (s.urq ≡ w.socket.urq)
      × (s.uwq_len ≡ w.socket.uwq_len)
      × (s.urq_len ≡ w.socket.urq_len)
unfolding dial_options listen_options
started-keeps_queues P w w' settings (dials addr options d e) =
    rw (start_dialing-socket (new_dialer addr options w.transports) w d e)
      (set_options-SameQueues P settings (activate w.socket) refl)
started-keeps_queues P w w' settings (listens addr options e) =
    rw (start_listening-socket (new_listener addr options w.transports) w e)
      (set_options-SameQueues P settings (activate w.socket) refl)
