-- ===== src/Peers.antt =====
-- protocol.go, lines 160 to 206: protocol numbers and which protocols may talk to each other, with
-- what the protocols' `Number`, `PeerNumber`, `Name` and `PeerName` return.
pub mod Names
use mangos_v.Prelude.{
  ℕ, ◌+◌, ◌*◌, ◌≡◌, refl, sym, ap, ◌∙◌, ◌↔◌, Bool, true, false, not, arith, ◌==◌, if◌then◌else◌,
  ==_refl, [], ◌∷◌,
}
use mangos_v.Prelude.Bytes.{Bytes}

pub data Kind : Type 0 where
  pair pub_kind sub req rep push pull surveyor respondent bus star : Kind

unfoldable pub number : Kind → ℕ
number pair = 1 * 16
number pub_kind = 2 * 16
number sub = 2 * 16 + 1
number req = 3 * 16
number rep = 3 * 16 + 1
number push = 5 * 16
number pull = 5 * 16 + 1
number surveyor = 6 * 16 + 2
number respondent = 6 * 16 + 3
number bus = 7 * 16
number star = 100 * 16

-- The protocol that each one's `PeerNumber` names.
abbrev pub peer : Kind → Kind
peer pair = pair
peer pub_kind = sub
peer sub = pub_kind
peer req = rep
peer rep = req
peer push = pull
peer pull = push
peer surveyor = respondent
peer respondent = surveyor
peer bus = bus
peer star = star

unfoldable pub peer_number : Kind → ℕ
unfolding number
peer_number k = number (peer k)

unfoldable pub valid_peers : Kind → Kind → Bool
unfolding number peer_number
valid_peers p1 p2 =
    if not (number p1 == peer_number p2)
    then false
    else if not (number p2 == peer_number p1)
    then false
    else true

-- What the protocols' `Name` and `PeerName` return.
unfoldable pub name : Kind → Bytes
name pair = b'p' ∷ b'a' ∷ b'i' ∷ b'r' ∷ []
name pub_kind = b'p' ∷ b'u' ∷ b'b' ∷ []
name sub = b's' ∷ b'u' ∷ b'b' ∷ []
name req = b'r' ∷ b'e' ∷ b'q' ∷ []
name rep = b'r' ∷ b'e' ∷ b'p' ∷ []
name push = b'p' ∷ b'u' ∷ b's' ∷ b'h' ∷ []
name pull = b'p' ∷ b'u' ∷ b'l' ∷ b'l' ∷ []
name surveyor = b's' ∷ b'u' ∷ b'r' ∷ b'v' ∷ b'e' ∷ b'y' ∷ b'o' ∷ b'r' ∷ []
name respondent = b'r' ∷ b'e' ∷ b's' ∷ b'p' ∷ b'o' ∷ b'n' ∷ b'd' ∷ b'e' ∷ b'n' ∷ b't' ∷ []
name bus = b'b' ∷ b'u' ∷ b's' ∷ []
name star = b's' ∷ b't' ∷ b'a' ∷ b'r' ∷ []

unfoldable pub peer_name : Kind → Bytes
unfolding name
peer_name k = name (peer k)

-- The protocol that a number stands for.
kind_of : ℕ → Kind
kind_of n =
    if n == 16
    then pair
    else if n == 32
    then pub_kind
    else if n == 33
    then sub
    else if n == 48
    then req
    else if n == 49
    then rep
    else if n == 80
    then push
    else if n == 81
    then pull
    else if n == 98
    then surveyor
    else if n == 99
    then respondent
    else if n == 112
    then bus
    else star

kind_of-number : (k : Kind) → kind_of (number k) ≡ k
unfolding kind_of number
kind_of-number pair = refl
kind_of-number pub_kind = refl
kind_of-number sub = refl
kind_of-number req = refl
kind_of-number rep = refl
kind_of-number push = refl
kind_of-number pull = refl
kind_of-number surveyor = refl
kind_of-number respondent = refl
kind_of-number bus = refl
kind_of-number star = refl

peer-peer : (k : Kind) → peer (peer k) ≡ k
peer-peer pair = refl
peer-peer pub_kind = refl
peer-peer sub = refl
peer-peer req = refl
peer-peer rep = refl
peer-peer push = refl
peer-peer pull = refl
peer-peer surveyor = refl
peer-peer respondent = refl
peer-peer bus = refl
peer-peer star = refl

-- The protocol that a name stands for, by its last letters where the first are shared.
kind_of_name : Bytes → Kind
kind_of_name (c ∷ d ∷ e ∷ []) =
    if c == b'p'
    then pub_kind
    else if c == b's'
    then sub
    else if c == b'b'
    then bus
    else if e == b'q'
    then req
    else rep
kind_of_name (c ∷ d ∷ e ∷ f ∷ []) =
    if f == b'r' then if c == b's' then star else pair else if f == b'h' then push else pull
kind_of_name (c ∷ _) = if c == b's' then surveyor else respondent
kind_of_name [] = pair

kind_of_name-name : (k : Kind) → kind_of_name (name k) ≡ k
unfolding kind_of_name name
kind_of_name-name pair = refl
kind_of_name-name pub_kind = refl
kind_of_name-name sub = refl
kind_of_name-name req = refl
kind_of_name-name rep = refl
kind_of_name-name push = refl
kind_of_name-name pull = refl
kind_of_name-name surveyor = refl
kind_of_name-name respondent = refl
kind_of_name-name bus = refl
kind_of_name-name star = refl

-- Names tell the protocols apart.
pub name-injective : (j k : Kind) → name j ≡ name k → j ≡ k
name-injective j k e = sym (kind_of_name-name j) ∙ ap kind_of_name e ∙ kind_of_name-name k

-- Two protocols may talk to each other exactly if one is the other's counterpart, so each has
-- exactly one.
pub valid_peers_iff : (p1 p2 : Kind) → (valid_peers p1 p2 ≡ true) ↔ (peer p1 ≡ p2)
unfolding valid_peers peer_number
valid_peers_iff p1 p2 = (
  λ h.
      let same : number p2 ≡ number (peer p1) = ground (arith) in
      sym (sym (kind_of-number p2) ∙ ap kind_of same ∙ kind_of-number (peer p1)),
  λ e. rw⁻¹ e (rw (peer-peer p1, ==_refl (number p1), ==_refl (number (peer p1))) refl),
)
