-- ===== src/Message/Pools.antt =====
-- What `NewMessage` gives out and `Free` takes back.
use mangos_v.Prelude.{
  ℕ, ◌≤◌, ◌<◌, ◌≡◌, refl, inl, inr, Option, none, some, List, [], ◌∷◌, arith, ltb, ◌==◌, ltb→lt,
  ==_iff, Bool-cases, All,
}
use mangos_v.Message.{
  Cache, Counted, Shelf, free, get, new_message, new_msg, shelve, take_cached, is_positive,
  message_cache, release, renew,
}
use mangos_v.Prelude.Bytes.{slice}

-- Every message of a pool has a buffer of the pool's size.
abbrev pub IsStocked : Cache → Type 0
IsStocked [] = Unit {0}
IsStocked (s ∷ cache) = All (λ c. c.bsize ≡ s.maxbody) s.pool × IsStocked cache

-- What an application does with messages.
pub data Use : Type 0 where
  asks : ℕ → Use
  frees : Counted → Use

-- The cache after a history of calls of `NewMessage` and `Free`.
unfoldable pub used : Cache → List Use → Cache
used cache [] = cache
used cache (asks sz ∷ us) = used (new_message sz cache).1 us
used cache (frees c ∷ us) = used (free c cache).1 us

-- A pool gives a message of its size, and stays a pool of that size.
abbrev Gives : ℕ → Counted × Shelf → Type 0
Gives n r = (r.0.bsize ≡ n) × (r.1.maxbody ≡ n) × All (λ c. c.bsize ≡ r.1.maxbody) r.1.pool

get-Gives :
    (n : ℕ) (pool : List Counted)
    → All (λ c. c.bsize ≡ n) pool
    → Gives n (get (record { maxbody = n; pool = pool }))
unfolding get new_msg
get-Gives n [] h = (refl, refl, tt)
get-Gives n (c ∷ pool) h = (h.0, refl, h.1)

-- What the loop of `NewMessage` finds is larger than asked for.
abbrev IsLarger : ℕ → Option Counted → Type 0
IsLarger sz none = Unit {0}
IsLarger sz (some c) = sz < c.bsize

take_cached-IsLarger :
    (sz : ℕ) (cache : Cache)
    → IsStocked cache
    → IsLarger sz (take_cached sz cache).0 × IsStocked (take_cached sz cache).1
unfolding take_cached
take_cached-IsLarger sz [] h = (tt, tt)
take_cached-IsLarger sz (s ∷ cache) h =
    let (size, size', stocked) = get-Gives s.maxbody s.pool h.0 in
    elim (Bool-cases (ltb sz s.maxbody)) [
      | inl e ↦ rw e (omega (arith, ltb→lt sz s.maxbody e), (stocked, h.1))
      | inr e ↦ rw e (let later = take_cached-IsLarger sz cache h.1 in (later.0, (h.0, later.1)))
    ]

shelve-IsStocked : (c : Counted) (cache : Cache) → IsStocked cache → IsStocked (shelve c cache)
unfolding shelve
shelve-IsStocked c [] h = tt
shelve-IsStocked c (s ∷ cache) h = elim (Bool-cases (c.bsize == s.maxbody)) [
  | inl e ↦ rw e (((==_iff c.bsize s.maxbody).0 e, h.0), h.1)
  | inr e ↦ rw e (h.0, shelve-IsStocked c cache h.1)
]

-- A message as `NewMessage` promises it: room for `sz` bytes, one reference, no header, no body.
pub record IsNew (sz : ℕ) (c : Counted) : Type 0 where
  pub fits : sz ≤ c.bsize
  pub live : c.refcnt ≡ 1
  pub empty_body : c.msg.body ≡ []
  pub empty_header : c.msg.header ≡ slice []

renew-IsNew :
    (sz : ℕ) (o : Option Counted)
    → IsLarger sz o
    → IsNew sz (elim o [ none ↦ renew (new_msg sz) | some c ↦ renew c ])
unfolding new_msg
renew-IsNew sz none h = record {
  fits = omega arith;
  live = refl;
  empty_body = refl;
  empty_header = refl;
}
renew-IsNew sz (some c) h = record {
  fits = omega arith;
  live = refl;
  empty_body = refl;
  empty_header = refl;
}

used-IsStocked : (us : List Use) (cache : Cache) → IsStocked cache → IsStocked (used cache us)
unfolding used new_message free
used-IsStocked [] cache h = h
used-IsStocked (asks sz ∷ us) cache h = used-IsStocked us _ (take_cached-IsLarger sz cache h).1
used-IsStocked (frees c ∷ us) cache h = elim (Bool-cases (is_positive (release c).refcnt)) [
  | inl e ↦ rw e (used-IsStocked us cache h)
  | inr e ↦ rw e (used-IsStocked us _ (shelve-IsStocked (release c) cache h))
]

message_cache-IsStocked : IsStocked message_cache
unfolding message_cache
message_cache-IsStocked = (tt, (tt, (tt, (tt, (tt, (tt, (tt, (tt, tt))))))))

-- Whatever messages were asked for and freed before, `NewMessage` gives a message with room for the
-- bytes asked for, one reference, no header and no body.
pub new_message-IsNew :
    (us : List Use) (sz : ℕ) → IsNew sz (new_message sz (used message_cache us)).0
unfolding new_message
new_message-IsNew us sz =
    let (larger, stocked) =
      take_cached-IsLarger sz (used message_cache us)
        (used-IsStocked us message_cache message_cache-IsStocked) in
    renew-IsNew sz (take_cached sz (used message_cache us)).0 larger
