-- ===== src/Macat/Plan.antt =====
-- macat/macat.go, `main`: the calls on the socket, in their order, up to one that fails or to a fatal
-- message, and the loop that follows.
use mangos_v.Prelude.{
  Bool, true, false, ◌&&◌, not, Option, none, some, List, [], ◌∷◌, ◌++◌, map, if◌then◌else◌,
}
use mangos_v.Prelude.Bytes.{Bytes}
use mangos_v.Prelude.Strings.{has_prefix}
use mangos_v.Errors.{Error}
use mangos_v.Peers.{
  Kind, pair, pub_kind, sub, req, rep, push, pull, surveyor, respondent, bus, star,
}
use mangos_v.Macat.Settings.{Settings}

-- `tlscfg`: whether it holds a certificate of the program's own, whether it asks for the other side's and
-- checks it (`RequireAndVerifyClientCert`), and `InsecureSkipVerify`.
pub record TlsConfig : Type 0 where
  pub has_certificate : Bool
  pub verifies_clients : Bool
  pub skips_verify : Bool

-- A fatal message.
pub data Fatal : Type 0 where
  bad_certificate no_protocol no_address misplaced_subscription : Fatal
  no_server_certificate no_ca_certificate : Fatal
  failed : Error → Fatal

-- A call on the socket; a dial or a listen may have the TLS configuration among its options.
pub data Call : Type 0 where
  subscribes : Bytes → Call
  listens dials : Bytes → Option TlsConfig → Call

pub data Step : Type 0 where
  call : Call → Step
  fatal : Fatal → Step

pub data Loop : Type 0 where
  receives sends sends_receives replies : Loop

-- The loading of the certificate, and what `main` makes of `tlscfg`. `none` is a fatal error; the first
-- argument tells whether `tls.LoadX509KeyPair` succeeds.
abbrev pub own_certificate : Bool → Bytes → Option Bool
own_certificate loads [] = some false
own_certificate loads (b ∷ file) = if loads then some true else none

unfoldable pub tls_config : Bool → Settings → Option TlsConfig
tls_config loads s = elim (own_certificate loads s.cert_file) [
  | none ↦ none
  | some has ↦ some (record {
    has_certificate = has;
    verifies_clients = s.root_cas;
    skips_verify = not s.root_cas;
  })
]

abbrev is_sub : Kind → Bool
is_sub sub = true
is_sub _ = false

-- The subscriptions.
abbrev sub_steps : List Bytes → List Step
sub_steps [] = call (subscribes []) ∷ []
sub_steps subs = map (λ topic. call (subscribes topic)) subs

abbrev other_steps : List Bytes → List Step
other_steps [] = []
other_steps subs = fatal misplaced_subscription ∷ []

unfoldable pub subscription_steps : Kind → List Bytes → List Step
subscription_steps k subs = if is_sub k then sub_steps subs else other_steps subs

-- "tls".
abbrev pub tls : Bytes
tls = b't' ∷ b'l' ∷ b's' ∷ []

unfoldable pub listen_step : TlsConfig → Bool → Bytes → Step
listen_step config no_verify addr =
    if not (has_prefix addr tls)
    then call (listens addr none)
    else if not config.has_certificate
    then fatal no_server_certificate
    else if config.skips_verify && not no_verify
    then fatal no_ca_certificate
    else call (listens addr (some config))

unfoldable pub dial_step : TlsConfig → Bool → Bytes → Step
dial_step config no_verify addr =
    if not (has_prefix addr tls)
    then call (dials addr none)
    else if config.skips_verify && not no_verify
    then fatal no_ca_certificate
    else call (dials addr (some config))

unfoldable pub steps : TlsConfig → Kind → Settings → List Step
unfolding subscription_steps listen_step dial_step
steps config k s =
    subscription_steps k s.subscriptions
    ++ (map (listen_step config s.no_verify_tls) s.listen_addrs
        ++ map (dial_step config s.no_verify_tls) s.dial_addrs)

-- A call with its result, before the others.
abbrev pub after_call : Option Error → Call → List Call × Option Fatal → List Call × Option Fatal
after_call none c (calls, end) = (c ∷ calls, end)
after_call (some e) c more = (c ∷ [], some (failed e))

-- The calls that are made, and the fatal message, if one comes.
unfoldable pub execute : (Call → Option Error) → List Step → List Call × Option Fatal
execute result [] = ([], none)
execute result (fatal f ∷ more) = ([], some f)
execute result (call c ∷ more) = after_call (result c) c (execute result more)

abbrev pub has_data : Option Bytes → Bool
has_data none = false
has_data (some text) = true

-- The `switch` at the end.
unfoldable pub loop_of : Kind → Option Bytes → Loop
loop_of pull text = receives
loop_of sub text = receives
loop_of push text = sends
loop_of pub_kind text = sends
loop_of pair text = if has_data text then sends_receives else receives
loop_of star text = if has_data text then sends_receives else receives
loop_of bus text = if has_data text then sends_receives else receives
loop_of surveyor text = sends_receives
loop_of req text = sends_receives
loop_of rep text = if has_data text then replies else receives
loop_of respondent text = if has_data text then replies else receives

abbrev pub has_address : Settings → Bool
has_address s = elim s.listen_addrs [
  | addr ∷ _ ↦ true
  | [] ↦ elim s.dial_addrs [ addr ∷ _ ↦ true | [] ↦ false ]
]

-- What `main` does: the calls, and the loop that it ends in, or a fatal message.
abbrev pub then_loop : List Call × Option Fatal → Loop → List Call × (Option Fatal × Option Loop)
then_loop (calls, some f) loop = (calls, (some f, none))
then_loop (calls, none) loop = (calls, (none, some loop))

abbrev pub stopped : Fatal → List Call × (Option Fatal × Option Loop)
stopped f = ([], (some f, none))

abbrev pub with_config :
    (Call → Option Error)
    → Option TlsConfig
    → Option Kind
    → Settings
    → List Call × (Option Fatal × Option Loop)
with_config result none kind s = stopped bad_certificate
with_config result (some config) none s = stopped no_protocol
with_config result (some config) (some k) s =
    if has_address s
    then then_loop (execute result (steps config k s)) (loop_of k s.send_data)
    else stopped no_address

unfoldable pub main :
    Bool → (Call → Option Error) → Settings → List Call × (Option Fatal × Option Loop)
unfolding tls_config steps execute loop_of
main loads result s = with_config result (tls_config loads s) s.kind s
