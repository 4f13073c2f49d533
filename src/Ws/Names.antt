-- ===== src/Ws/Names.antt =====
-- Which WebSocket connections become pipes.
use mangos_v.Prelude.{
  ◌≡◌, refl, sym, ap, ◌∙◌, ◌↔◌, ◌⊎◌, inl, inr, true, some, List, [], ◌∷◌, ◌++◌, In, arith,
  Bool-cases, length, length-append, take, take-length-append,
}
use mangos_v.Prelude.Bytes.{Bytes}
use mangos_v.Prelude.Strings.{equal, equal_iff}
use mangos_v.Peers.{Kind, name, name-injective, peer, peer_name, valid_peers, valid_peers_iff}
use mangos_v.Ws.{Listener, handle, requested, suffix, supported}

-- How the WebSocket library's upgrader chooses a subprotocol: one that both sides name, if there is one, and
-- else the empty one.
pub record Upgrader : Type 0 where
  pub choose : List Bytes → List Bytes → Bytes
  pub chosen :
      (client server : List Bytes)
      → (In (choose client server) client × In (choose client server) server)
        ⊎ ((choose client server ≡ []) × ((p : Bytes) → In p client → In p server → ⊥))

same_suffix : (a b : Bytes) → a ++ suffix ≡ b ++ suffix → a ≡ b
same_suffix a b e =
    let same : length a ≡ length b =
      omega (arith, length-append a suffix, length-append b suffix, ap length e) in
    sym (take-length-append a suffix)
    ∙ ap (take (length a)) e
    ∙ ap (λ n. take n (b ++ suffix)) same
    ∙ take-length-append b suffix

not_empty : (a : Bytes) → a ++ suffix ≡ [] → ⊥
not_empty a e = absurd (omega (arith, length-append a suffix, ap length e))

In-single : {A : Type 0} {a x : A} → In a (x ∷ []) → x ≡ a
In-single (inl e) = e
In-single (inr m) = elim m [ ]

module _ (u : Upgrader) where
  open u use {choose, chosen}

  choose_iff : (d k : Kind) → (choose (requested d) (supported k) ≡ name k ++ suffix) ↔ (peer d ≡ k)
  unfolding requested supported peer_name
  choose_iff d k = elim (chosen (requested d) (supported k)) [
    | inl (by_client, by_server) ↦ (
      λ e.
          name-injective (peer d) k
            (same_suffix (name (peer d)) (name k) (In-single by_client ∙ e)),
      λ _. sym (In-single by_server),
    )
    | inr (nothing, none_common) ↦ (
      λ e. absurd (not_empty (name k) (sym e ∙ nothing)),
      λ e. absurd (none_common (name k ++ suffix) (inl (ap (λ j. name j ++ suffix) e)) (inl refl)),
    )
  ]

  -- Where the upgrader chooses a subprotocol that both sides name, if there is one, and else the empty one: a WebSocket connection from a dialer of one protocol to a running listener of another becomes a pipe exactly
  -- if ValidPeers says that the two may be peers: the names that the two sides exchange decide as the
  -- numbers of the other transports do.
  pub handle-valid_peers :
      (d : Kind) (l : Listener)
      → l.running ≡ true
      → ((handle (choose (requested d) (supported l.proto)) l).1 ≡ some l.next)
        ↔ (valid_peers d l.proto ≡ true)
  unfolding handle
  handle-valid_peers d l running =
      let chosen_one = choose (requested d) (supported l.proto) in
      let (to, from) = equal_iff chosen_one (name l.proto ++ suffix) in
      let (names, peers) = choose_iff d l.proto in
      elim (Bool-cases (equal chosen_one (name l.proto ++ suffix))) [
        | inl same ↦
            (λ _. (valid_peers_iff d l.proto).1 (names (to same)), λ _. rw (running, same) refl)
        | inr differs ↦ (
          λ h. absurd (ground (arith, running, differs, h)),
          λ h. absurd (ground (arith, differs, from (peers ((valid_peers_iff d l.proto).0 h)))),
        )
      ]
