-- ===== src/Star/Laws.antt =====
-- How far a STAR message travels.
use mangos_v.Prelude.{
  ℕ, zero, suc, ◌+◌, ◌≤◌, ◌≡◌, refl, ◌∙◌, inl, inr, Option, none, some, [], ◌∷◌, arith, ltb, leb,
  if◌then◌else◌, ltb→lt, Bool-cases,
}
use mangos_v.Message.{Message, fresh, wire}
use mangos_v.Prelude.Bytes.{Bytes, append, slice}
use mangos_v.Star.{accept}

-- A message as a peer sends it: the hop count, then the payload.
abbrev pub framed : ℕ → Bytes → Message
framed hops payload = fresh (0 ∷ 0 ∷ 0 ∷ hops ∷ payload)

-- A message that passes through `n` sockets, each with the hop limit `ttl`.
unfoldable pub relay : ℕ → ℕ → Message → Option Message
relay zero ttl m = some m
relay (suc n) ttl m = elim (accept ttl m) [ none ↦ none | some m' ↦ relay n ttl (fresh (wire m')) ]

accept-framed :
    (ttl hops : ℕ) (payload : Bytes)
    → ttl ≤ 255
    → accept ttl (framed hops payload) ≡ (
        if ltb hops ttl
        then some (record {
          header = slice (0 ∷ 0 ∷ 0 ∷ (hops + 1) ∷ []);
          body = payload;
          port = none;
          expire = none;
        })
        else none)
unfolding accept fresh append
accept-framed ttl hops payload h = ground (arith)

-- With a hop limit of at most 255, a message with the hop count `hops`, at most the limit, passes
-- through `n` sockets exactly if `hops + n` is at most the limit, with the payload unchanged and
-- `hops + n` as its count.
pub relay_iff :
    (n ttl hops : ℕ) (payload : Bytes)
    → ttl ≤ 255
    → hops ≤ ttl
    → relay n ttl (framed hops payload)
      ≡ (if leb (hops + n) ttl then some (framed (hops + n) payload) else none)
unfolding relay fresh wire
relay_iff zero ttl hops payload h near = ground arith
relay_iff (suc n) ttl hops payload h near = elim (Bool-cases (ltb hops ttl)) [
  | inl more ↦
      rw (relay, accept-framed ttl hops payload h, more)
        (relay_iff n ttl (hops + 1) payload h (omega (arith, ltb→lt hops ttl more))
          ∙ (let e : hops + 1 + n ≡ hops + suc n = omega arith in rw e refl))
  | inr last ↦ rw (relay, accept-framed ttl hops payload h, last) (ground arith)
]
