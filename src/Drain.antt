-- ===== src/Drain.antt =====
-- util.go, `DrainChannel`: the wait for a queue to empty, over what it reads of the queue's length and of the
-- clock. Times are in nanoseconds.
use mangos_v.Prelude.{
  ℕ, zero, suc, ◌+◌, ◌*◌, ◌-◌, ◌/◌, ◌≤◌, ◌<◌, ◌≡◌, refl, inl, inr, Bool, true, false, Option, none,
  some, List, [], ◌∷◌, In, arith, ltb, ◌==◌, if◌then◌else◌, length, ap, ◌∙◌, sym,
}

-- 10 ms.
abbrev pub longest : ℕ
longest = 10_000_000

-- How long it sleeps after a reading at this time.
abbrev pub pause : ℕ → ℕ → ℕ
pause expire now = if ltb longest (expire - now) then longest else expire - now

-- `DrainChannel`; `none` is a call that reads on.
unfoldable pub drain_channel : ℕ → List (ℕ × ℕ) → Option Bool
drain_channel expire [] = none
drain_channel expire ((len, now) ∷ more) =
    let rest = drain_channel expire more in
    if len == 0 then some true else if ltb expire now then some false else rest

-- The clock between readings: `time.Sleep` takes at least the pause, and time goes on.
abbrev pub Sleeps : ℕ → ℕ → List (ℕ × ℕ) → Type 0
Sleeps expire now [] = Unit
Sleeps expire now ((len, later) ∷ more) =
    (now + pause expire now ≤ later) × (now < later) × Sleeps expire later more

later_on :
    (expire now : ℕ) (readings : List (ℕ × ℕ)) (at_time : ℕ)
    → Sleeps expire now readings
    → In (0, at_time) readings
    → now < at_time
later_on expire now [] t s m = elim m [ ]
later_on expire now ((len, later) ∷ more) t s (inl e) =
    let same : later ≡ t = ap (λ r. r.1) e in omega (arith, s.1)
later_on expire now ((len, later) ∷ more) t s (inr m) =
    let ih = later_on expire later more t s.2 m in omega (arith, s.1)

-- Once the queue has been seen empty in time.
drain-empties :
    (expire now len : ℕ) (more : List (ℕ × ℕ)) (at_time : ℕ)
    → Sleeps expire now more
    → In (0, at_time) ((len, now) ∷ more)
    → at_time ≤ expire
    → drain_channel expire ((len, now) ∷ more) ≡ some true
unfolding drain_channel
drain-empties expire now len more t s (inl e) soon =
    let same : len ≡ 0 = ap (λ r. r.0) e in ground arith
drain-empties expire now len [] t s (inr m) soon = elim m [ ]
drain-empties expire now len ((len', later) ∷ more) t s (inr m) soon = ground (
  arith,
  later_on expire now ((len', later) ∷ more) t s m,
  drain-empties expire later len' more t s.2 m soon,
)

one_of :
    (empty past : Bool) (rest : Option Bool)
    → (past ≡ false → (b : Bool) × (rest ≡ some b))
    → (b : Bool) × ((if empty then some true else if past then some false else rest) ≡ some b)
one_of true past rest h = (true, refl)
one_of false true rest h = (false, refl)
one_of false false rest h = h refl

drain-ends :
    (n expire now len : ℕ) (more : List (ℕ × ℕ))
    → Sleeps expire now more
    → expire ≤ now + n * longest
    → n + 1 ≤ length more
    → (b : Bool) × (drain_channel expire ((len, now) ∷ more) ≡ some b)
unfolding drain_channel
drain-ends n expire now len [] s near enough = absurd (omega (arith, enough))
drain-ends zero expire now len ((len', later) ∷ more) s near enough =
    one_of (len == 0) (ltb expire now) (drain_channel expire ((len', later) ∷ more)) (λ _.
      one_of (len' == 0) (ltb expire later) (drain_channel expire more)
        (λ e. absurd (ground (arith, e, s.1, near))))
drain-ends (suc n) expire now len ((len', later) ∷ more) s near enough =
    one_of (len == 0) (ltb expire now) (drain_channel expire ((len', later) ∷ more)) (λ _.
      drain-ends n expire later len' more s.2 (ground (arith, s.0, near)) (omega (arith, enough)))

abbrev or_false : Option Bool → Bool
or_false none = false
or_false (some b) = b

-- Where the clock goes on by at least each pause and always a little: a wait of `wait` nanoseconds ends after at most
-- `wait / 10 ms + 3` readings, and it reports that the queue is empty if a reading not after the end of the
-- wait found it empty.
pub drain_channel-ends :
    (start wait len : ℕ) (more : List (ℕ × ℕ))
    → Sleeps (start + wait) start more
    → wait / longest + 2 ≤ length more
    → (b : Bool) × (drain_channel (start + wait) ((len, start) ∷ more) ≡ some b)
      × ((now : ℕ) → In (0, now) ((len, start) ∷ more) → now ≤ start + wait → b ≡ true)
drain_channel-ends start wait len more s enough =
    let (b, ends) =
      drain-ends (wait / longest + 1) (start + wait) start len more s (omega arith) (omega arith) in
    (
      b,
      ends,
      λ now here soon.
          ap or_false (sym ends ∙ drain-empties (start + wait) start len more now s here soon),
    )
