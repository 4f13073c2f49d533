-- ===== src/Core/Receiving.antt =====
-- What `RecvMsg` returns.
use mangos_v.Prelude.{ℕ, zero, suc, ◌≡◌, refl, true, false, none, List, [], ◌∷◌, ◌++◌, length, All}
use mangos_v.Message.{Message}
use mangos_v.Core.{Operations, RecvCase, Socket, recv_msg, arrives, hooked, message}

-- A message that the hook turns away, with no effect on the protocol.
abbrev pub Refuses : {S : Type 0} → Operations S → S → Message → Type 0
Refuses P p m = hooked P P.recv_hook p m ≡ (p, m, false)

abbrev pub arrivals : ℕ → List RecvCase
arrivals zero = []
arrivals (suc n) = arrives ∷ arrivals n

-- `RecvMsg` passes over the messages that the hook turns away and returns the first that it takes,
-- and leaves the later ones in the queue.
pub recv_msg-first :
    {S : Type 0} (P : Operations S) (s : Socket S) (stale : List Message) (m got : Message)
    (rest : List Message) (p : S)
    → (P.sock s.proto).recverr ≡ none
    → s.urq.items ≡ stale ++ (m ∷ rest)
    → All (Refuses P s.proto) stale
    → hooked P P.recv_hook s.proto m ≡ (p, got, true)
    → let q = s.urq in
      recv_msg P (arrivals (suc (length stale))) s
      ≡ (record s { proto = p; urq = record q { items = rest } }, message got)
unfolding recv_msg
recv_msg-first P s [] m got rest p quiet items turned taken_up =
    rw (quiet, items, taken_up, recv_msg) refl
recv_msg-first P s (x ∷ stale) m got rest p quiet items turned taken_up =
    let q = s.urq in
    rw (quiet, items, turned.0, recv_msg)
      (recv_msg-first P (record s { urq = record q { items = stale ++ (m ∷ rest) } }) stale m got
        rest p quiet refl turned.1 taken_up)
