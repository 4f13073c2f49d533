-- ===== src/Peers/Names.antt =====
-- protocol.go, `ProtocolName`.
use mangos_v.Prelude.{ℕ, ◌≡◌, refl, ◌≢◌, ◌↔◌, [], ◌==◌, if◌then◌else◌}
use mangos_v.Prelude.Bytes.{Bytes}
use mangos_v.Peers.{
  Kind, name, number, pair, pub_kind, sub, req, rep, push, pull, surveyor, respondent, bus, star,
}

-- The entries of the table; any other number has the empty name.
unfoldable pub protocol_name : ℕ → Bytes
unfolding number
protocol_name n =
    if n == number pair
    then name pair
    else if n == number pub_kind
    then name pub_kind
    else if n == number sub
    then name sub
    else if n == number req
    then name req
    else if n == number rep
    then name rep
    else if n == number push
    then name push
    else if n == number pull
    then name pull
    else if n == number surveyor
    then name surveyor
    else if n == number respondent
    then name respondent
    else if n == number bus
    then name bus
    else []

-- `ProtocolName` of a protocol's number is the protocol's name for all the protocols but STAR.
pub protocol_name-number : (k : Kind) → (protocol_name (number k) ≡ name k) ↔ (k ≢ star)
unfolding protocol_name name
protocol_name-number star = (λ e h. cc, λ h. absurd (h refl))
protocol_name-number _ = (λ e h. cc, λ h. refl)
