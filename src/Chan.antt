-- ===== src/Chan.antt =====
-- A Go channel of messages: its capacity, what it holds, whether it is closed, and how many
-- goroutines are blocked receiving from it (an unbuffered channel takes a message only for those).
use mangos_v.Prelude.{
  ℕ, ◌+◌, ◌≤◌, ◌≡◌, refl, ◌⊎◌, inl, inr, Bool, true, false, List, [], ◌∷◌, ◌++◌, arith, ltb,
  if◌then◌else◌, Bool-cases, length, length-append,
}
use mangos_v.Prelude.Table.{Table}

pub record Chan {ℓ} (A : Type ℓ) : Type ℓ where
  pub cap : ℕ
  pub items : List A
  pub takers : ℕ
  pub is_closed : Bool

-- The three ends of `select { case c <- a: … default: … }`. A send on a closed channel panics.
pub data Offer {ℓ} (A : Type ℓ) : Type ℓ where
  taken : Chan A → Offer A
  full : Offer A
  panics : Offer A

module _ {ℓ} {A : Type ℓ} where
  -- `make(chan A, n)`.
  unfoldable pub make : ℕ → Chan A
  make n = record { cap = n; items = []; takers = 0; is_closed = false }

  abbrev pub has_room : Chan A → Bool
  has_room c = ltb (length c.items) (c.cap + c.takers)

  unfoldable pub offer : Chan A → A → Offer A
  offer c a =
      if c.is_closed
      then panics
      else if has_room c
      then taken (record c { items = c.items ++ (a ∷ []) })
      else full

  -- `close(c)`; what the channel holds can still be received.
  unfoldable pub close : Chan A → Chan A
  close c = record c { is_closed = true }

-- The loop at the end of the protocols' `Shutdown`: every peer's queue is closed.
unfoldable pub close_all {ℓ} : {A : Type ℓ} → Table (Chan A) → Table (Chan A)
unfolding close
close_all [] = []
close_all ((id, q) ∷ rest) = (id, close q) ∷ close_all rest

-- A channel that is open and holds no more than it has room for.
pub record IsSound {ℓ} {A : Type ℓ} (q : Chan A) : Type 0 where
  pub is_open : q.is_closed ≡ false
  pub within : length q.items ≤ q.cap + q.takers

module _ {ℓ} {A : Type ℓ} where
  pub make-IsSound : (n : ℕ) → IsSound {A = A} (make n)
  unfolding make
  make-IsSound n = record { is_open = refl; within = omega arith }

  -- A sound channel takes the message or is full; it never panics, and stays sound.
  pub offer-IsSound :
      (q : Chan A) (a : A)
      → IsSound q
      → ((offer q a ≡ full) ⊎ ((q' : Chan A) × (offer q a ≡ taken q') × IsSound q'))
  unfolding offer
  offer-IsSound q a h = elim (Bool-cases (has_room q)) [
    | inl room ↦ inr (
      record q { items = q.items ++ (a ∷ []) },
      rw (h.is_open, room),
      record { is_open = h.is_open; within = ground (arith, length-append q.items (a ∷ [])) },
    )
    | inr none_left ↦ inl (rw (h.is_open, none_left))
  ]

  pub offer_room :
      (q : Chan A) (a : A)
      → q.is_closed ≡ false
      → has_room q ≡ true
      → offer q a ≡ taken (record q { items = q.items ++ (a ∷ []) })
  unfolding offer
  offer_room q a open_q room = rw (open_q, room)

  pub offer_full :
      (q : Chan A) (a : A) → q.is_closed ≡ false → has_room q ≡ false → offer q a ≡ full
  unfolding offer
  offer_full q a open_q room = rw (open_q, room)

  pub grown-IsSound :
      (q : Chan A) (a : A)
      → IsSound q
      → has_room q ≡ true
      → IsSound (record q { items = q.items ++ (a ∷ []) })
  grown-IsSound q a s room = record {
    is_open = s.is_open;
    within = ground (arith, length-append q.items (a ∷ []));
  }
