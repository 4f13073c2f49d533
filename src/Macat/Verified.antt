-- ===== src/Macat/Verified.antt =====
-- macat's TLS connections are verified unless the command line says otherwise.
use mangos_v.Prelude.{
  ◌≡◌, refl, sym, ◌∙◌, ◌⊎◌, inl, inr, Bool, true, false, not, ◌&&◌, Option, none, some, List, [],
  ◌∷◌, map, arith, All, All-append, In, Bool-cases, Option-cases,
}
use mangos_v.Prelude.Bytes.{Bytes}
use mangos_v.Prelude.Strings.{has_prefix}
use mangos_v.Errors.{Error}
use mangos_v.Peers.{Kind, sub}
use mangos_v.Macat.Settings.{Flag, Settings, at_start, insecure, parse, set_flag}
use mangos_v.Macat.Settings
use mangos_v.Macat.Plan.{
  has_address, loop_of, after_call, Call, Fatal, Loop, Step, TlsConfig, call, dials, dial_step,
  execute, fatal, listen_step, listens, main, steps, subscribes, subscription_steps, tls,
  tls_config, with_config, then_loop,
}

-- Either the program was told not to verify, or the configuration makes it verify the other side.
abbrev pub IsChecked : Type 0 → TlsConfig → Type 0
IsChecked Waived config =
    Waived ⊎ ((config.skips_verify ≡ false) × (config.verifies_clients ≡ true))

-- A call with an address that starts with "tls" has a configuration that is checked; to listen there takes a
-- certificate, too.
abbrev pub IsSafe : Type 0 → Call → Type 0
IsSafe Waived (subscribes topic) = Unit {0}
IsSafe Waived (listens addr options) =
    has_prefix addr tls ≡ true
    → (config : TlsConfig) × (options ≡ some config)
      × (config.has_certificate ≡ true)
      × IsChecked Waived config
IsSafe Waived (dials addr options) =
    has_prefix addr tls ≡ true
    → (config : TlsConfig) × (options ≡ some config) × IsChecked Waived config

abbrev IsSafeStep : Type 0 → Step → Type 0
IsSafeStep Waived (call c) = IsSafe Waived c
IsSafeStep Waived (fatal f) = Unit {0}

after_call-IsSafe :
    (Waived : Type 0) (r : Option Error) (c : Call) (more : List Call × Option Fatal)
    → IsSafe Waived c
    → All (IsSafe Waived) more.0
    → All (IsSafe Waived) (after_call r c more).0
after_call-IsSafe Waived none c more h hs = (h, hs)
after_call-IsSafe Waived (some e) c more h hs = (h, tt)

execute-IsSafe :
    (Waived : Type 0) (result : Call → Option Error) (xs : List Step)
    → All (IsSafeStep Waived) xs
    → All (IsSafe Waived) (execute result xs).0
unfolding execute
execute-IsSafe Waived result [] h = tt
execute-IsSafe Waived result (fatal f ∷ xs) h = tt
execute-IsSafe Waived result (call c ∷ xs) h =
    after_call-IsSafe Waived (result c) c (execute result xs) h.0
      (execute-IsSafe Waived result xs h.1)

-- Which settings a configuration comes from.
abbrev Fits : Type 0 → Settings → TlsConfig → Type 0
Fits Waived s config =
    (config.skips_verify ≡ not config.verifies_clients) × (s.no_verify_tls ≡ true → Waived)

-- The guard of both.
checked :
    (Waived : Type 0) (s : Settings) (config : TlsConfig)
    → Fits Waived s config
    → (((config.skips_verify && not s.no_verify_tls) ≡ true) × Unit {0})
      ⊎ (((config.skips_verify && not s.no_verify_tls) ≡ false) × IsChecked Waived config)
checked Waived s config fits = elim (Bool-cases s.no_verify_tls) [
  | inl told ↦ inr (rw told (ground arith), inl (fits.1 told))
  | inr not_told ↦ elim (Bool-cases config.skips_verify) [
    | inl skips ↦ inl (rw (skips, not_told) refl, tt)
    | inr checks ↦ inr (rw checks refl, inr (checks, ground (arith, fits.0)))
  ]
]

listen_step-IsSafe :
    (Waived : Type 0) (s : Settings) (config : TlsConfig) (addr : Bytes)
    → Fits Waived s config
    → IsSafeStep Waived (listen_step config s.no_verify_tls addr)
unfolding listen_step
listen_step-IsSafe Waived s config addr fits = elim (Bool-cases (has_prefix addr tls)) [
  | inr plain ↦ rw plain (λ h. cc)
  | inl is_tls ↦ elim (Bool-cases config.has_certificate) [
    | inr without ↦ rw (is_tls, without) tt
    | inl has ↦ elim (checked Waived s config fits) [
      | inl (refuses, _) ↦ rw (is_tls, has, refuses) tt
      | inr (passes, checks) ↦ simp (is_tls, has, passes) (λ _. (config, refl, has, checks))
    ]
  ]
]

dial_step-IsSafe :
    (Waived : Type 0) (s : Settings) (config : TlsConfig) (addr : Bytes)
    → Fits Waived s config
    → IsSafeStep Waived (dial_step config s.no_verify_tls addr)
unfolding dial_step
dial_step-IsSafe Waived s config addr fits = elim (Bool-cases (has_prefix addr tls)) [
  | inr plain ↦ rw plain (λ h. cc)
  | inl is_tls ↦ elim (checked Waived s config fits) [
    | inl (refuses, _) ↦ rw (is_tls, refuses) tt
    | inr (passes, checks) ↦ rw (is_tls, passes) (λ _. (config, refl, checks))
  ]
]

set_flag-no_verify :
    (flag : Flag) (s s' : Settings)
    → set_flag flag s ≡ some s'
    → (s'.no_verify_tls ≡ s.no_verify_tls) ⊎ (flag ≡ insecure)
unfolding set_flag
set_flag-no_verify Settings.insecure s s' e = inr refl
set_flag-no_verify flag s s' e = inl (ground arith)

parsed_on :
    (flag : Flag) (flags : List Flag) (s s' x : Settings)
    → set_flag flag s ≡ some x
    → parse (flag ∷ flags) s ≡ some s'
    → parse flags x ≡ some s'
unfolding parse
parsed_on flag flags s s' x set e = ground (arith, set, e)

tls_config-skips :
    (loads : Bool) (s : Settings) (config : TlsConfig)
    → tls_config loads s ≡ some config
    → config.skips_verify ≡ not config.verifies_clients
unfolding tls_config
tls_config-skips loads s config made = ground arith

All-map :
    {A B : Type 0} (P : B → Type 0) (f : A → B)
    → ((a : A) → P (f a))
    → (xs : List A) → All P (map f xs)
All-map P f h [] = tt
All-map P f h (a ∷ xs) = (h a, All-map P f h xs)

subscriptions-IsSafe :
    (Waived : Type 0) (k : Kind) (subs : List Bytes)
    → All (IsSafeStep Waived) (subscription_steps k subs)
unfolding subscription_steps
subscriptions-IsSafe Waived sub [] = (tt, tt)
subscriptions-IsSafe Waived sub (topic ∷ subs) =
    All-map (IsSafeStep Waived) (λ t. call (subscribes t)) (λ t. tt) (topic ∷ subs)
subscriptions-IsSafe Waived _ [] = tt
subscriptions-IsSafe Waived _ (topic ∷ subs) = (tt, tt)

-- The options of the command line that waive it, and what comes of them.
parse-no_verify :
    (flags : List Flag) (s s' : Settings)
    → parse flags s ≡ some s'
    → s'.no_verify_tls ≡ true
    → (s.no_verify_tls ≡ true) ⊎ In insecure flags
unfolding parse
parse-no_verify [] s s' e told = inl (ground arith)
parse-no_verify (flag ∷ flags) s s' e told = elim (Option-cases (set_flag flag s)) [
  | inl wrong ↦ absurd (ground (arith, wrong))
  | inr (x, set) ↦ elim (parse-no_verify flags x s' (parsed_on flag flags s s' x set e) told) [
    | inr later ↦ inr (inr later)
    | inl now ↦ elim (set_flag-no_verify flag s x set) [
      | inl same ↦ inl (sym same ∙ now)
      | inr here ↦ inr (inl here)
    ]
  ]
]

steps-IsSafe :
    (Waived : Type 0) (s : Settings) (config : TlsConfig) (k : Kind)
    → Fits Waived s config
    → All (IsSafeStep Waived) (steps config k s)
unfolding steps
steps-IsSafe Waived s config k fits =
    All-append (IsSafeStep Waived) (subscription_steps k s.subscriptions) _
      (subscriptions-IsSafe Waived k s.subscriptions)
      (All-append (IsSafeStep Waived) (map (listen_step config s.no_verify_tls) s.listen_addrs) _
        (All-map (IsSafeStep Waived) (listen_step config s.no_verify_tls)
          (λ addr. listen_step-IsSafe Waived s config addr fits) s.listen_addrs)
        (All-map (IsSafeStep Waived) (dial_step config s.no_verify_tls)
          (λ addr. dial_step-IsSafe Waived s config addr fits) s.dial_addrs))

then_loop-IsSafe :
    (Waived : Type 0) (x : List Call × Option Fatal) (loop : Loop)
    → All (IsSafe Waived) x.0
    → All (IsSafe Waived) (then_loop x loop).0
then_loop-IsSafe Waived (calls, some f) loop h = h
then_loop-IsSafe Waived (calls, none) loop h = h

with_config-IsSafe :
    (Waived : Type 0) (result : Call → Option Error) (config : Option TlsConfig)
    (kind : Option Kind) (s : Settings)
    → ((c : TlsConfig) → config ≡ some c → Fits Waived s c)
    → All (IsSafe Waived) (with_config result config kind s).0
with_config-IsSafe Waived result none kind s fits = tt
with_config-IsSafe Waived result (some config) none s fits = tt
with_config-IsSafe Waived result (some config) (some k) s fits = elim (Bool-cases (has_address s)) [
  | inr nowhere ↦ rw nowhere tt
  | inl somewhere ↦ rw somewhere (
      then_loop-IsSafe Waived (execute result (steps config k s)) (loop_of k s.send_data) (
        execute-IsSafe Waived result (steps config k s)
          (steps-IsSafe Waived s config k (fits config refl))))
]

-- Whatever the options of the command line, the results of the calls on the socket, and whether a certificate
-- loads: each address that starts with "tls" is listened on or dialed only with a configuration that
-- verifies the other side, or else the option --insecure was given; and it is listened on only with a
-- certificate.
pub main-IsSafe :
    (flags : List Flag) (s : Settings) (loads : Bool) (result : Call → Option Error)
    → parse flags at_start ≡ some s
    → All (IsSafe (In insecure flags)) (main loads result s).0
unfolding main
main-IsSafe flags s loads result parsed =
    with_config-IsSafe (In insecure flags) result (tls_config loads s) s.kind s (λ config made. (
      tls_config-skips loads s config made,
      λ told. elim (parse-no_verify flags at_start s parsed told) [
        | inl already ↦ cc
        | inr given ↦ given
      ],
    ))
