-- ===== src/Fan/Laws.antt =====
-- What the loop of `Fan` does to the queues and to the reference count.
use mangos_v.Prelude.{
  ℕ, ◌+◌, ◌^◌, ◌≤◌, ◌<◌, ◌≡◌, refl, ap, inl, inr, Bool, true, false, Option, none, some, [], ◌∷◌,
  ◌++◌, arith, ◌==◌, if◌then◌else◌, ==_iff, Bool-cases, length, length-append,
}
use mangos_v.Message.{Message, Counted, dup, release}
use mangos_v.Chan.{
  full, Chan, IsSound, has_room, grown-IsSound, offer_full, offer_room, offer, taken,
}
use mangos_v.Prelude.Table.{AllValues, Table, lookup}
use mangos_v.Fan.{fan_out, Fanned, keep, everybody}

-- What a queue is after the loop: the message at its end, if it is not passed over and has room.
abbrev pub served : (ℕ → Bool) → Message → ℕ → Chan Message → Chan Message
served passed_over m id q =
    if passed_over id then q else if has_room q then record q { items = q.items ++ (m ∷ []) } else q

abbrev pub serve_all : (ℕ → Bool) → Message → Table (Chan Message) → Table (Chan Message)
serve_all passed_over m [] = []
serve_all passed_over m ((id, q) ∷ rest) =
    (id, served passed_over m id q) ∷ serve_all passed_over m rest

-- How many messages the queues hold.
abbrev pub held : Table (Chan Message) → ℕ
held [] = 0
held ((id, q) ∷ rest) = length q.items + held rest

release-dup : (c : Counted) → c.refcnt < 2 ^ 32 → release (dup c) ≡ c
unfolding release dup
release-dup c h = ground arith

dup-refcnt : (c : Counted) → c.refcnt + 1 < 2 ^ 32 → (dup c).refcnt ≡ c.refcnt + 1
unfolding dup
dup-refcnt c h = omega arith

-- The loop did not panic, it served each peer once, and the count rose by what the queues took.
abbrev pub Served : (ℕ → Bool) → Counted → Table (Chan Message) → Fanned → Type 0
Served p c t f =
    (f.panicked ≡ false)
    × (f.peers ≡ serve_all p c.msg t)
    × (f.message.refcnt + held t ≡ c.refcnt + held f.peers)
    × (AllValues IsSound f.peers)
    × (f.message.msg ≡ c.msg)

module _ (p : ℕ → Bool) (c : Counted) (id : ℕ) (q : Chan Message)
    (rest : Table (Chan Message)) where
  fan_over : p id ≡ true → fan_out p c ((id, q) ∷ rest) ≡ keep id q (fan_out p c rest)
  unfolding fan_out
  fan_over e = rw (e, fan_out)

  fan_taken :
      (q' : Chan Message)
      → p id ≡ false
      → offer q c.msg ≡ taken q'
      → fan_out p c ((id, q) ∷ rest) ≡ keep id q' (fan_out p (dup c) rest)
  unfolding fan_out
  fan_taken q' e o = rw (e, fan_out) (rw (o, fan_out))

  fan_full :
      p id ≡ false
      → offer q c.msg ≡ full
      → fan_out p c ((id, q) ∷ rest) ≡ keep id q (fan_out p (release (dup c)) rest)
  unfolding fan_out
  fan_full e o = rw (e, fan_out) (rw (o, fan_out))

-- With sound queues, and a count that does not wrap.
pub fan_out-serves :
    (p : ℕ → Bool) (c : Counted) (t : Table (Chan Message))
    → AllValues IsSound t
    → c.refcnt + length t < 2 ^ 32
    → Served p c t (fan_out p c t)
unfolding dup
fan_out-serves p c [] s small = unfold fan_out in (refl, refl, refl, tt, refl)
fan_out-serves p c ((id, q) ∷ rest) s small = elim (Bool-cases (p id)) [
  | inl over ↦
      let (calm, all, count, sound, same) = fan_out-serves p c rest s.1 (omega arith) in
      rw (fan_over p c id q rest over, over)
        (calm, ap (◌∷◌ (id, q)) all, omega arith, (s.0, sound), same)
  | inr here ↦ elim (Bool-cases (has_room q)) [
    | inl room ↦
        let (calm, all, count, sound, same) =
          fan_out-serves p (dup c) rest s.1 (omega (arith, dup-refcnt c)) in
        let q' : Chan Message = record q { items = q.items ++ (c.msg ∷ []) } in
        rw (fan_taken p c id q rest q' here (offer_room q c.msg s.0.is_open room), here, room)
          (
            calm,
            ap (◌∷◌ (id, q')) (all),
            omega (arith, dup-refcnt c, length-append q.items (c.msg ∷ [])),
            (grown-IsSound q c.msg s.0 room, sound),
            same,
          )
    | inr no_more ↦
        let (calm, all, count, sound, same) = fan_out-serves p c rest s.1 (omega arith) in
        rw
          (
            fan_full p c id q rest here (offer_full q c.msg s.0.is_open no_more),
            release-dup c (omega arith),
            here,
            no_more,
          )
          (calm, ap (◌∷◌ (id, q)) all, omega arith, (s.0, sound), same)
  ]
]

abbrev pub served_at : (ℕ → Bool) → Message → ℕ → Option (Chan Message) → Option (Chan Message)
served_at p m id none = none
served_at p m id (some q) = some (served p m id q)

-- What the loop does to the queue of one peer.
pub lookup-serve_all :
    (p : ℕ → Bool) (m : Message) (id : ℕ) (t : Table (Chan Message))
    → lookup id (serve_all p m t) ≡ served_at p m id (lookup id t)
unfolding lookup
lookup-serve_all p m id [] = refl
lookup-serve_all p m id ((j, q) ∷ rest) = elim (Bool-cases (j == id)) [
  | inl same ↦ rw same (rw ((==_iff j id).0 same) refl)
  | inr other ↦ rw other (lookup-serve_all p m id rest)
]

-- Each queue takes the message at most once.
pub held-serve_all :
    (p : ℕ → Bool) (m : Message) (t : Table (Chan Message))
    → (held t ≤ held (serve_all p m t)) × (held (serve_all p m t) ≤ held t + length t)
held-serve_all p m [] = omega arith
held-serve_all p m ((id, q) ∷ rest) =
    ground (arith, held-serve_all p m rest, length-append q.items (m ∷ []))

pub served_at_over :
    (p : ℕ → Bool) (m : Message) (id : ℕ) (o : Option (Chan Message))
    → p id ≡ true
    → served_at p m id o ≡ o
served_at_over p m id none e = refl
served_at_over p m id (some q) e = rw e refl

pub served_at_other :
    (p : ℕ → Bool) (m : Message) (id : ℕ) (o : Option (Chan Message))
    → p id ≡ false
    → served_at p m id o ≡ served_at everybody m id o
unfolding everybody
served_at_other p m id none e = refl
served_at_other p m id (some q) e = rw e refl
