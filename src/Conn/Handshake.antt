-- ===== src/Conn/Handshake.antt =====
-- The SP handshake of conn.go: both sides send a header of eight bytes and check the other's.
use mangos_v.Prelude.{
  ℕ, ◌+◌, ◌*◌, ◌/◌, ◌%◌, ◌^◌, ◌<◌, ◌≡◌, ◌↔◌, Bool, true, false, ◌||◌, not, Option, none, some, List,
  [], ◌∷◌, ◌++◌, arith, ◌==◌, if◌then◌else◌, All,
}
use mangos_v.Options.{int, Value}
use mangos_v.Prelude.Bytes.{Bytes, IsByte}
use mangos_v.Errors.{Error, Result, bad_header, bad_property, bad_proto, bad_version, ok}
use mangos_v.Peers.{pair, peer, Kind, peer_number, number}
use mangos_v.Prelude.Int.{pos, ℤ}

-- `binary.Write` of the `connHeader`; the zero, the version and the reserved word are 0.
unfoldable pub header_of : ℕ → Bytes
header_of n = 0 ∷ 83 ∷ 80 ∷ 0 ∷ (n / 256 % 256) ∷ (n % 256) ∷ 0 ∷ 0 ∷ []

-- What `handshake` makes of a connection: it is open, with its receive limit and its properties, and
-- with what is left to read; or it is refused, with or without a `Close` of the stream.
pub data Shaken : Type 0 where
  opened : ℤ → List (Bytes × Value) → Bytes → Shaken
  refused : Error → Bool → Shaken

-- The loop over `props`, pairs of a name and a value; a name must be a string.
unfoldable pub collect : List Value → List (Bytes × Value) → Option (List (Bytes × Value))
collect (Value.string name ∷ v ∷ props) acc = collect props ((name, v) ∷ acc)
collect (_ ∷ v ∷ props) acc = none
collect _ acc = some acc

-- `p.maxrx`, from the socket's `OptionMaxRecvSize`.
abbrev pub limit_of : Result Value → ℤ
limit_of (ok (int n)) = n
limit_of _ = pos 0

-- The checks of the peer's header, in their order.
check_header : ℕ → ℤ → List (Bytes × Value) → Bytes → Shaken
check_header peer maxrx props (zero_byte ∷ s ∷ p ∷ version ∷ hi ∷ lo ∷ r1 ∷ r2 ∷ rest) =
    if not (zero_byte == 0) || not (s == 83) || not (p == 80) || not (r1 * 256 + r2 == 0)
    then refused bad_header true
    else if not (version == 0)
    then refused bad_version true
    else if not (hi * 256 + lo == peer)
    then refused bad_proto true
    else opened maxrx props rest
check_header peer maxrx props _ = refused Error.foreign true

-- `handshake`, where the stream takes the header; the last argument is what the peer sends.
unfoldable pub handshake : Kind → Result Value → List Value → Bytes → Shaken
unfolding collect check_header
handshake k max_recv_size props stream = elim (collect props []) [
  | none ↦ refused bad_property false
  | some named ↦ check_header (peer_number k) (limit_of max_recv_size) named stream
]

number_small : (k : Kind) → number k < 2 ^ 16
unfolding number
number_small pair = omega arith
number_small _ = omega arith

check_header-opened :
    (n : ℕ) (maxrx : ℤ) (named : List (Bytes × Value)) (stream rest : Bytes)
    → All IsByte stream
    → check_header n maxrx named stream ≡ opened maxrx named rest
    → stream ≡ header_of n ++ rest
unfolding check_header header_of
check_header-opened n maxrx named [] rest bs e = cc
check_header-opened n maxrx named (a ∷ []) rest bs e = cc
check_header-opened n maxrx named (a ∷ b ∷ []) rest bs e = cc
check_header-opened n maxrx named (a ∷ b ∷ c ∷ []) rest bs e = cc
check_header-opened n maxrx named (a ∷ b ∷ c ∷ d ∷ []) rest bs e = cc
check_header-opened n maxrx named (a ∷ b ∷ c ∷ d ∷ hi ∷ []) rest bs e = cc
check_header-opened n maxrx named (a ∷ b ∷ c ∷ d ∷ hi ∷ lo ∷ []) rest bs e = cc
check_header-opened n maxrx named (a ∷ b ∷ c ∷ d ∷ hi ∷ lo ∷ x ∷ []) rest bs e = cc
check_header-opened n maxrx named (a ∷ b ∷ c ∷ d ∷ hi ∷ lo ∷ x ∷ y ∷ more) rest bs e = ground arith

header_of-opens :
    (n : ℕ) (maxrx : ℤ) (named : List (Bytes × Value)) (rest : Bytes)
    → n < 2 ^ 16
    → check_header n maxrx named (header_of n ++ rest) ≡ opened maxrx named rest
unfolding check_header header_of
header_of-opens n maxrx named rest small = ground arith

-- With well-formed properties and bytes: a connection opens exactly if what the peer sends starts with
-- the header that the protocol's counterpart writes, and then what follows is left to read.
pub handshake_iff :
    (k : Kind) (r : Result Value) (props : List Value) (named : List (Bytes × Value))
    (stream rest : Bytes)
    → collect props [] ≡ some named
    → All IsByte stream
    → (handshake k r props stream ≡ opened (limit_of r) named rest)
      ↔ (stream ≡ header_of (number (peer k)) ++ rest)
unfolding handshake peer_number
handshake_iff k r props named stream rest good bs = (
  λ e.
      check_header-opened (number (peer k)) (limit_of r) named stream rest bs
        (rw (good, handshake) at e),
  λ e.
      rw (good, e, handshake)
        (header_of-opens (number (peer k)) (limit_of r) named rest (number_small (peer k))),
)
