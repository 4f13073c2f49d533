-- ===== src/Tcp/Settings.antt =====
-- What the options of a TCP dialer or listener make of its connections.
use mangos_v.Prelude.{
  ◌≡◌, refl, true, Bool, Option, none, some, List, [], ◌∷◌, Bool-cases, inl, inr, if◌then◌else◌,
}
use mangos_v.Prelude.Int.{ℤ, pos, ltb_ℤ}
use mangos_v.Errors.{or_else, Result, err, ok}
use mangos_v.Options.{OptionName, Value, as_bool, as_duration}
use mangos_v.Tcp.{Net, TcpOptions, config_tcp, new_options, of_result, set, setting}
use mangos_v.Options

abbrev timed : Option ℤ → Option Value
timed none = none
timed (some t) = some (Value.duration t)

-- The map that holds these values.
abbrev pub holding : Bool → Bool → Option ℤ → TcpOptions
holding d k p = record {
  no_delay = some (Value.bool d);
  keep_alive = some (Value.bool k);
  keep_alive_time = timed p;
}

-- The value of each option after a call of `SetOption`: a value of the option's type takes its place,
-- unless it is a time below zero.
abbrev pub then_no_delay : OptionName → Value → Bool → Bool
then_no_delay Options.no_delay (Value.bool b) d = b
then_no_delay _ _ d = d

abbrev pub then_keep_alive : OptionName → Value → Bool → Bool
then_keep_alive Options.keep_alive (Value.bool b) k = b
then_keep_alive _ _ k = k

abbrev pub then_time : OptionName → Value → Option ℤ → Option ℤ
then_time Options.keep_alive_time (Value.duration t) p = if ltb_ℤ t (pos 0) then p else some t
then_time _ _ p = p

abbrev pub or_same : TcpOptions → Result TcpOptions → TcpOptions
or_same o (ok o') = o'
or_same o (err e) = o

pub set-holding :
    (name : OptionName) (v : Value) (d k : Bool) (p : Option ℤ)
    → or_same (holding d k p) (set name v (holding d k p))
      ≡ holding (then_no_delay name v d) (then_keep_alive name v k) (then_time name v p)
unfolding set
set-holding Options.no_delay (Value.bool b) d k p = refl
set-holding Options.no_delay _ d k p = refl
set-holding Options.keep_alive (Value.bool b) d k p = refl
set-holding Options.keep_alive _ d k p = refl
set-holding Options.keep_alive_time (Value.duration t) d k p = elim (Bool-cases (ltb_ℤ t (pos 0))) [
  | inl below ↦ rw below refl
  | inr valid ↦ rw valid refl
]
set-holding Options.keep_alive_time _ d k p = refl
set-holding _ v d k p = refl

-- The values after several calls.
abbrev pub last_no_delay : List (OptionName × Value) → Bool → Bool
last_no_delay [] d = d
last_no_delay ((name, v) ∷ more) d = last_no_delay more (then_no_delay name v d)

abbrev pub last_keep_alive : List (OptionName × Value) → Bool → Bool
last_keep_alive [] k = k
last_keep_alive ((name, v) ∷ more) k = last_keep_alive more (then_keep_alive name v k)

abbrev pub last_time : List (OptionName × Value) → Option ℤ → Option ℤ
last_time [] p = p
last_time ((name, v) ∷ more) p = last_time more (then_time name v p)

-- The calls of `SetOption` on a map, whatever their results.
abbrev pub after_sets : List (OptionName × Value) → TcpOptions → TcpOptions
after_sets [] o = o
after_sets ((name, v) ∷ more) o = after_sets more (or_same o (set name v o))

pub after_sets-holding :
    (settings : List (OptionName × Value)) (d k : Bool) (p : Option ℤ)
    → after_sets settings (holding d k p)
      ≡ holding (last_no_delay settings d) (last_keep_alive settings k) (last_time settings p)
after_sets-holding [] d k p = refl
after_sets-holding ((name, v) ∷ more) d k p = rw (set-holding name v d k p) (
    after_sets-holding more (then_no_delay name v d) (then_keep_alive name v k)
      (then_time name v p))

after_sets-new :
    (settings : List (OptionName × Value))
    → after_sets settings new_options
      ≡ holding
          (last_no_delay settings true)
          (last_keep_alive settings true)
          (last_time settings none)
unfolding new_options
after_sets-new settings = after_sets-holding settings true true none

module _ {A C L : Type 0} (net : Net A C L) where
  -- The calls on a new connection that these values stand for, up to the first that fails.
  abbrev pub period : Option ℤ → C → Result C
  period none c = ok c
  period (some t) c = net.set_keep_alive_period t c

  abbrev pub prepared : Bool → Bool → Option ℤ → C → Result C
  prepared d k p c = or_else (or_else (net.set_no_delay d c) (net.set_keep_alive k)) (period p)

  last_step :
      (r : Result C) (p : Option ℤ)
      → setting net as_duration net.set_keep_alive_period (timed p) (of_result net r)
        ≡ of_result net (or_else r (period p))
  last_step (err e) none = refl
  last_step (err e) (some t) = refl
  last_step (ok c) none = refl
  last_step (ok c) (some t) = refl

  last_steps :
      (r : Result C) (k : Bool) (p : Option ℤ)
      → setting net as_duration net.set_keep_alive_period
          (timed p)
          (setting net as_bool net.set_keep_alive (some (Value.bool k)) (of_result net r))
        ≡ of_result net (or_else (or_else r (net.set_keep_alive k)) (period p))
  last_steps (err e) k p = last_step (err e) p
  last_steps (ok c) k p = last_step (net.set_keep_alive k c) p

  pub config_tcp-holding :
      (d k : Bool) (p : Option ℤ) (c : C)
      → config_tcp net (holding d k p) c ≡ of_result net (prepared d k p c)
  unfolding config_tcp
  config_tcp-holding d k p c = last_steps (net.set_no_delay d c) k p

  -- After any calls of `SetOption` on a new dialer or listener, whatever their names, their values and their
  -- results, its connections get the last value of each option's type that was set, and else no delay
  -- and keep-alive probes; a time below zero does not count. No type assertion panics, and an error
  -- of the network ends it.
  pub config_tcp-after_sets :
      (settings : List (OptionName × Value)) (c : C)
      → config_tcp net (after_sets settings new_options) c
        ≡ of_result net (
            prepared
              (last_no_delay settings true)
              (last_keep_alive settings true)
              (last_time settings none)
              c)
  config_tcp-after_sets settings c = rw (after_sets-new settings) (
      config_tcp-holding (last_no_delay settings true) (last_keep_alive settings true)
        (last_time settings none) c)
