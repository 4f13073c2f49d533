-- ===== src/Core/Addresses/Schemes.antt =====
-- Which transport an address finds.
use mangos_v.Prelude.{
  ◌≡◌, if◌then◌else◌, refl, sym, ap, ◌∙◌, inl, inr, none, some, List, [], ◌∷◌, ◌++◌, suc, ℕ, arith,
  take, length, In, take-length-append, drop-length-append, Bool-cases, Option-cases, false,
}
use mangos_v.Prelude.Bytes.{Bytes}
use mangos_v.Prelude.Strings.{
  StartsWith, equal, equal_iff, has_prefix, has_prefix-append, has_prefix_sound, index,
}
use mangos_v.Core.Addresses.{
  up_to, Transport, mark, strip_scheme, by_scheme, store_at, add_transport, get_transport,
}
use mangos_v.Errors.{ok}
use mathlib.Core.List.{append_assoc}

-- `Index` finds the mark behind the first `i` bytes.
index_sound : (s : Bytes) (i : ℕ) → index s mark ≡ some i → StartsWith s (take i s ++ mark)
unfolding index has_prefix
index_sound [] i e = cc
index_sound (b ∷ s) i e = elim (Bool-cases (has_prefix (b ∷ s) mark)) [
  | inl here ↦ let first : i ≡ 0 = ground (arith) in rw first (has_prefix_sound (b ∷ s) mark here)
  | inr other ↦ elim (Option-cases (index s mark)) [
    | inl missing ↦ absurd (ground (arith, e, other, missing))
    | inr (j, found) ↦
        let next : i ≡ suc j = ground arith in
        let (rest, split) = index_sound s j found in (rest, rw next (ap (◌∷◌ b) split))
  ]
]

-- Where a longer string has the mark in front, the scheme has it.
no_mark :
    (b : ℕ) (scheme rest : Bytes)
    → has_prefix (b ∷ scheme) mark ≡ false
    → has_prefix (b ∷ scheme ++ (mark ++ rest)) mark ≡ false
unfolding has_prefix
no_mark b [] rest e = ground arith
no_mark b (c ∷ []) rest e = ground arith
no_mark b (c ∷ d ∷ scheme) rest e = ground (arith, e)

-- A scheme without the mark ends where the first mark stands.
index-scheme :
    (scheme rest : Bytes)
    → index scheme mark ≡ none
    → index (scheme ++ (mark ++ rest)) mark ≡ some (length scheme)
unfolding index
index-scheme [] rest e = unfold has_prefix in refl
index-scheme (b ∷ scheme) rest e =
    let here : has_prefix (b ∷ scheme) mark ≡ false = ground arith in
    let beyond : index scheme mark ≡ none = elim (Option-cases (index scheme mark)) [
      | inl missing ↦ missing
      | inr (j, found) ↦ absurd (ground (arith, found))
    ] in
    rw (no_mark b scheme rest here, index-scheme scheme rest beyond) refl

strip_scheme-marked :
    (scheme rest : Bytes) → strip_scheme scheme (scheme ++ (mark ++ rest)) ≡ ok rest
unfolding strip_scheme
strip_scheme-marked scheme rest =
    rw
      (
        sym (append_assoc scheme mark rest),
        has_prefix-append (scheme ++ mark) rest,
        drop-length-append (scheme ++ mark) rest,
      )
      refl

none-some : {A : Type 0} {a : A} → ¬ (none ≡ some a)
none-some e = cc

module _ {D L : Type 0} where
  by_scheme-store_at :
      (s scheme : Bytes) (t : Transport D L) (ts : List (Bytes × Transport D L))
      → by_scheme s (store_at scheme t ts) ≡ (if equal scheme s then some t else by_scheme s ts)
  unfolding by_scheme store_at
  by_scheme-store_at s scheme t [] = refl
  by_scheme-store_at s scheme t ((name, u) ∷ ts) = elim (Bool-cases (equal name scheme)) [
    | inl same ↦
        rw ((equal_iff name scheme).0 same, (equal_iff scheme scheme).1 refl) (ground arith)
    | inr other ↦ elim (Bool-cases (equal name s)) [
      | inl here ↦
          let differs : equal scheme s ≡ false = elim (Bool-cases (equal scheme s)) [
            | inl both ↦
                let together = (equal_iff name s).0 here ∙ sym ((equal_iff scheme s).0 both) in
                absurd (ground (arith, (equal_iff name scheme).1 together))
            | inr not_same ↦ not_same
          ] in
          rw (other, here, differs) refl
      | inr not_here ↦ rw (other, not_here) (by_scheme-store_at s scheme t ts)
    ]
  ]

  -- The map after the calls of `AddTransport`, the last one first.
  abbrev pub added : List (Transport D L) → List (Bytes × Transport D L)
  added [] = []
  added (t ∷ ts) = add_transport t (added ts)

  by_scheme-added :
      (s : Bytes) (ts : List (Transport D L)) (t : Transport D L)
      → by_scheme s (added ts) ≡ some t
      → (s ≡ t.scheme) × In t ts
  unfolding add_transport by_scheme store_at
  by_scheme-added s [] t e = cc
  by_scheme-added s (u ∷ ts) t e =
      let stored = sym (by_scheme-store_at s u.scheme u (added ts)) ∙ e in
      elim (Bool-cases (equal u.scheme s)) [
        | inl same ↦
            let it : some u ≡ some t = rw same at stored in
            let it' : u ≡ t = ground (arith, it) in
            rw (sym it') (sym ((equal_iff u.scheme s).0 same), inl refl)
        | inr other ↦
            let older : by_scheme s (added ts) ≡ some t = rw other at stored in
            let (name, here) = by_scheme-added s ts t older in (name, inr here)
      ]

  -- The transport that a socket finds for an address is one of those that were added to it, and the
  -- address is its scheme, the mark "://" and a rest, which is what StripScheme gives the transport.
  pub get_transport-strip_scheme :
      (ts : List (Transport D L)) (addr : Bytes) (t : Transport D L)
      → get_transport addr (added ts) ≡ some t
      → In t ts
        × ((rest : Bytes) × (addr ≡ t.scheme ++ (mark ++ rest))
            × (strip_scheme t.scheme addr ≡ ok rest))
  unfolding get_transport
  get_transport-strip_scheme ts addr t e = elim (Option-cases (index addr mark)) [
    | inl missing ↦ absurd (none-some (sym (ap (λ o. up_to o addr (added ts)) missing) ∙ e))
    | inr (i, found) ↦
        let (name, here) =
          by_scheme-added (take i addr) ts t (sym (ap (λ o. up_to o addr (added ts)) found) ∙ e) in
        let (rest, split) = index_sound addr i found in
        let whole : addr ≡ t.scheme ++ (mark ++ rest) =
          split ∙ (rw name (append_assoc t.scheme mark rest)) in
        (here, (rest, whole, rw whole (strip_scheme-marked t.scheme rest)))
  ]

  -- An address with the scheme of a transport, where the scheme holds no mark itself, finds that
  -- transport from the moment when it is added, whatever was added before.
  pub get_transport-added :
      (t : Transport D L) (ts : List (Transport D L)) (rest : Bytes)
      → index t.scheme mark ≡ none
      → get_transport (t.scheme ++ (mark ++ rest)) (added (t ∷ ts)) ≡ some t
  unfolding get_transport add_transport by_scheme store_at
  get_transport-added t ts rest none_in =
      ap (λ o. up_to o (t.scheme ++ (mark ++ rest)) (added (t ∷ ts)))
        (index-scheme t.scheme rest none_in)
      ∙ rw
          (
            take-length-append t.scheme (mark ++ rest),
            by_scheme-store_at t.scheme t.scheme t (added ts),
            (equal_iff t.scheme t.scheme).1 refl,
          )
          refl
