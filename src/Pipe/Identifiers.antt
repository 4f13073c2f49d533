-- ===== src/Pipe/Identifiers.antt =====
-- `newPipe` finds an identifier, and one that no open pipe has.
use mangos_v.Prelude.{
  ℕ, zero, suc, ◌+◌, ◌%◌, ◌^◌, ◌≤◌, ◌<◌, ◌≡◌, refl, ◌≢◌, ◌⊎◌, inl, inr, Bool, true, false, ◌&&◌,
  not, Option, none, some, [], ◌∷◌, arith, ◌==◌, if◌then◌else◌, ==_iff, Bool-cases, length,
}
use mangos_v.Pipe.{Pipes, is_free, new_pipe, is_none}
use mangos_v.Prelude.Table.{Table, insert, lookup}
use mangos_v.Message.{free}
use mangos_v.Prelude.Bytes.{u32}

-- How many of the identifiers that `k` turns try, from the counter `n` on, are not free.
abbrev misses : (ℕ → Bool) → ℕ → ℕ → ℕ
misses free n zero = 0
misses free n (suc k) =
    let rest = misses free (n + 1) k in if free (n % 2 ^ 31) then rest else rest + 1

abbrev is_not : ℕ → ℕ → Bool
is_not j id = not (j == id)

-- The identifiers that come after one differ from it for 2³¹ turns.
misses_after : (m d k : ℕ) → 1 ≤ d → d + k ≤ 2 ^ 31 → misses (is_not (m % 2 ^ 31)) (m + d) k ≡ 0
misses_after m d zero h near = refl
misses_after m d (suc k) h near =
    let e : m + d + 1 ≡ m + (d + 1) = omega arith in
    let differ : (m % 2 ^ 31 == (m + d) % 2 ^ 31) ≡ false = ground arith in
    rw (differ, e) (misses_after m (d + 1) k (omega arith) (omega arith))

misses_one : (j n k : ℕ) → k ≤ 2 ^ 31 → misses (is_not j) n k ≤ 1
misses_one j n zero h = omega arith
misses_one j n (suc k) h = elim (Bool-cases (j == n % 2 ^ 31)) [
  | inl e ↦
      let gone : misses (is_not j) (n + 1) k ≡ 0 =
        rw ((==_iff j (n % 2 ^ 31)).0 e) (misses_after n 1 k (omega arith) (omega arith)) in
      rw e (omega arith)
  | inr e ↦ rw e (misses_one j (n + 1) k (omega arith))
]

misses_wrapped :
    (free : ℕ → Bool) (n m k : ℕ) → n % 2 ^ 31 ≡ m % 2 ^ 31 → misses free n k ≡ misses free m k
misses_wrapped free n m zero e = refl
misses_wrapped free n m (suc k) e = rw (e, misses_wrapped free (n + 1) (m + 1) k (omega arith)) refl

is_none-none {ℓ} : {A : Type ℓ} (o : Option A) → is_none o ≡ true → o ≡ none
is_none-none none e = refl
is_none-none (some a) e = cc

misses_nil {ℓ} : (P : Type ℓ) (n k : ℕ) → misses (is_free {P = P} []) n k ≤ misses (is_not 0) n k
unfolding lookup
misses_nil P n zero = omega arith
misses_nil P n (suc k) = ground (arith, misses_nil P (n + 1) k)

module _ {ℓ} {P : Type ℓ} where
  is_free_cons :
      (j id : ℕ) (v : P) (t : Table P) → is_free ((j, v) ∷ t) id ≡ (is_not j id && is_free t id)
  unfolding lookup
  is_free_cons j id v t = ground arith

  misses_cons :
      (j : ℕ) (v : P) (t : Table P) (n k : ℕ)
      → misses (is_free ((j, v) ∷ t)) n k ≤ misses (is_not j) n k + misses (is_free t) n k
  misses_cons j v t n zero = omega arith
  misses_cons j v t n (suc k) =
      ground (arith, is_free_cons j (n % 2 ^ 31) v t, misses_cons j v t (n + 1) k)

  -- No more identifiers are missed than there are pipes, and 0.
  misses_bound : (t : Table P) (n k : ℕ) → k ≤ 2 ^ 31 → misses (is_free t) n k ≤ length t + 1
  unfolding lookup
  misses_bound [] n k h = omega (arith, misses_nil P n k, misses_one 0 n k h)
  misses_bound ((j, v) ∷ t) n k h =
      omega (arith, misses_cons j v t n k, misses_one j n k h, misses_bound t n k h)

  -- What a turn that finds an identifier leaves.
  abbrev pub Found : P → Pipes P → ℕ → Pipes P → Type ℓ
  Found p s id s' =
      (id ≢ 0) × (id < 2 ^ 31) × (lookup id s.byid ≡ none) × (s'.byid ≡ insert id p s.byid)

  free-facts : (t : Table P) (id : ℕ) → is_free t id ≡ true → (id ≢ 0) × (lookup id t ≡ none)
  free-facts t id e = (λ z. ground arith, is_none-none (lookup id t) (ground arith))

  new_pipe-cases :
      (turns : ℕ) (p : P) (s : Pipes P)
      → (misses (is_free s.byid) s.nextid turns ≡ turns)
        ⊎ ((id : ℕ) × (s' : Pipes P) × (new_pipe turns p s ≡ some (id, s')) × Found p s id s')
  unfolding new_pipe
  new_pipe-cases zero p s = inl refl
  new_pipe-cases (suc turns) p s =
      let id = s.nextid % 2 ^ 31 in
      let s' : Pipes P = record s { nextid = u32 (s.nextid + 1) } in
      elim (Bool-cases (is_free s.byid id)) [
        | inl e ↦
            let (nonzero, unused) = free-facts s.byid id e in
            inr (
              id,
              record s' { byid = insert id p s.byid },
              rw e refl,
              (nonzero, omega arith, unused, refl),
            )
        | inr e ↦ elim (new_pipe-cases turns p s') [
          | inl all ↦ inl (
              rw e (
                omega (
                  arith,
                  misses_wrapped (is_free s.byid) (s.nextid + 1) (u32 (s.nextid + 1)) turns
                      (omega arith),
                )))
          | inr (found, s'', run, facts) ↦ inr (found, s'', rw e run, facts)
        ]
      ]

  -- With any number of turns from two more than there are open pipes, up to 2³¹, the loop ends, with an
  -- identifier that is not zero, has its top bit clear and belongs to no open pipe, and with the pipe
  -- registered under it.
  pub new_pipe-finds :
      (turns : ℕ) (p : P) (s : Pipes P)
      → length s.byid + 2 ≤ turns
      → turns ≤ 2 ^ 31
      → (id : ℕ) × (s' : Pipes P) × (new_pipe turns p s ≡ some (id, s')) × Found p s id s'
  new_pipe-finds turns p s enough few = elim (new_pipe-cases turns p s) [
    | inl all ↦ absurd (omega (arith, misses_bound s.byid s.nextid turns few))
    | inr found ↦ found
  ]

  -- The identifier that `newPipe` returns was not in use, and is now.
  pub new_pipe-unused :
      (turns : ℕ) (p : P) (s s' : Pipes P) (id : ℕ)
      → new_pipe turns p s ≡ some (id, s')
      → (lookup id s.byid ≡ none) × (s'.byid ≡ insert id p s.byid)
  unfolding new_pipe
  new_pipe-unused zero p s s' id e = cc
  new_pipe-unused (suc turns) p s s' id e =
      let next = s.nextid % 2 ^ 31 in
      elim (Bool-cases (is_free s.byid next)) [
        | inl h ↦ ground (arith, free-facts s.byid next h)
        | inr h ↦
            new_pipe-unused turns p (record s { nextid = u32 (s.nextid + 1) }) s' id (rw h at e)
      ]
