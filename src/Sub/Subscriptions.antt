-- ===== src/Sub/Subscriptions.antt =====
-- The subscriptions of a SUB socket as a set of prefixes.
use mangos_v.Prelude.{
  ◌≡◌, refl, sym, ◌↔◌, ◌⊎◌, inl, inr, true, false, none, some, List, [], ◌∷◌, ◌++◌, arith,
  Bool-cases, Option-cases, In,
}
use mangos_v.Sub.{
  Sub, last_of, matched, receiver, shorten, present, set_option, unsubscribe, as_bytes,
}
use mangos_v.Message.{Message}
use mangos_v.Protocol.{up, deliver}
use mathlib.Core.List.{Perm, Mem, Nodup, mem-cons, not-mem-nil, append-nil, Nodup-cons, perm_middle}
use mangos_v.Prelude.Bytes.{Bytes}
use mangos_v.Prelude.Strings.{
  StartsWith, equal, equal_iff, has_prefix, has_prefix-append, has_prefix_sound,
}
use mangos_v.Options.{OptionName, Value}
use mathlib.Core.HLevel.{⊥_prop}
use mathlib.Core.List.Perm
use mathlib.Core.Logic.Or

matched_sound :
    (subs : List Bytes) (body : Bytes)
    → matched subs body ≡ true
    → (sub : Bytes) × In sub subs × StartsWith body sub
unfolding matched
matched_sound [] body h = cc
matched_sound (sub ∷ subs) body h = elim (Bool-cases (has_prefix body sub)) [
  | inl e ↦ (sub, inl refl, has_prefix_sound body sub e)
  | inr e ↦ let (found, m, s) = matched_sound subs body (ground arith) in (found, inr m, s)
]

matched_complete :
    (subs : List Bytes) (sub rest : Bytes) → In sub subs → matched subs (sub ++ rest) ≡ true
unfolding matched
matched_complete [] sub rest m = elim m [ ]
matched_complete (x ∷ subs) sub rest (inl e) = rw (e, has_prefix-append sub rest) refl
matched_complete (x ∷ subs) sub rest (inr m) = ground (arith, matched_complete subs sub rest m)

-- While the socket's receive queue is ready, the receiver delivers a message exactly when the body
-- starts with one of the subscriptions.
pub receiver-delivers :
    (s : Sub) (m : Message)
    → (receiver s up m ≡ deliver m) ↔ ((sub : Bytes) × In sub s.subs × StartsWith m.body sub)
unfolding receiver
receiver-delivers s m = (
  λ h. matched_sound s.subs m.body (ground arith),
  λ found.
      let (sub, here, start) = found in
      let (rest, e) = start in
      let hit : matched s.subs m.body ≡ true = rw e (matched_complete s.subs sub rest here) in
      rw hit refl,
)

last_of-perm : (x : Bytes) (xs : List Bytes) → Perm (last_of x xs ∷ shorten x xs) (x ∷ xs)
unfolding last_of shorten
last_of-perm x [] = Perm.refl _
last_of-perm x (y ∷ rest) = Perm.trans (Perm.swap _ _ _) (Perm.cons x (last_of-perm y rest))

-- What is left when the first subscription gives its place to the last.
closed_up : List Bytes → List Bytes
closed_up [] = []
closed_up (y ∷ rest) = last_of y rest ∷ shorten y rest

closed_up-perm : (xs : List Bytes) → Perm (closed_up xs) xs
unfolding closed_up
closed_up-perm [] = Perm.refl []
closed_up-perm (y ∷ rest) = last_of-perm y rest

-- Unsubscribing takes out one occurrence of the prefix and keeps the others, up to their order; it
-- fails exactly when the prefix is not there.
pub unsubscribe-cases :
    (vb : Bytes) (subs : List Bytes)
    → ((unsubscribe vb subs ≡ none) × (¬ Mem vb subs))
      ⊎ ((subs' : List Bytes) × (unsubscribe vb subs ≡ some subs') × Perm (vb ∷ subs') subs)
unfolding unsubscribe closed_up
unsubscribe-cases vb [] = inl (refl, not-mem-nil)
unsubscribe-cases vb (sub ∷ subs) = elim (Bool-cases (equal sub vb)) [
  | inl same ↦ inr (
    closed_up subs,
    rw (same) refl,
    rw (← (equal_iff sub vb).0 same) (Perm.cons sub (closed_up-perm subs)),
  )
  | inr other ↦ elim (unsubscribe-cases vb subs) [
    | inl (e, absent) ↦ inl (
      rw (other, e) refl,
      λ m. Or.elim ⊥_prop (mem-cons.0 m) (λ eq. cc ((equal_iff sub vb).1 (sym eq))) absent,
    )
    | inr (subs', e, p) ↦
        inr (sub ∷ subs', rw (other, e) refl, Perm.trans (Perm.swap _ _ _) (Perm.cons sub p))
  ]
]

present-absent : (vb : Bytes) (subs : List Bytes) → present vb subs ≡ false → ¬ Mem vb subs
unfolding present
present-absent vb [] e = not-mem-nil
present-absent vb (sub ∷ subs) e = λ m.
    Or.elim ⊥_prop (mem-cons.0 m) (λ eq. cc ((equal_iff sub vb).1 (sym eq)))
      (present-absent vb subs (ground arith))

Nodup-snoc :
    (vb : Bytes) (subs : List Bytes) → ¬ Mem vb subs → Nodup subs → Nodup (subs ++ (vb ∷ []))
Nodup-snoc vb subs absent h =
    Perm.nodup (Perm.symm (perm_middle subs [])) (rw append-nil (Nodup-cons.1 (absent, h)))

-- No option leaves a socket with the same subscription twice.
pub set_option-Nodup :
    (name : OptionName) (v : Value) (s : Sub) → Nodup s.subs → Nodup (set_option name v s).0.subs
unfolding set_option
set_option-Nodup OptionName.raw v s h = h
set_option-Nodup OptionName.subscribe v s h = elim (Option-cases (as_bytes v)) [
  | inl e ↦ rw (e, set_option) h
  | inr (vb, e) ↦ elim (Bool-cases (present vb s.subs)) [
    | inl old ↦ rw (e, set_option) (rw old h)
    | inr new ↦ rw (e, set_option) (rw new (Nodup-snoc vb s.subs (present-absent vb s.subs new) h))
  ]
]
set_option-Nodup OptionName.unsubscribe v s h = elim (Option-cases (as_bytes v)) [
  | inl e ↦ rw (e, set_option) h
  | inr (vb, e) ↦ elim (unsubscribe-cases vb s.subs) [
    | inl (none_found, absent) ↦ rw (e, set_option) (rw none_found h)
    | inr (subs', found, p) ↦
        rw (e, set_option) (rw found (Nodup-cons.0 (Perm.nodup (Perm.symm p) h)).1)
  ]
]
set_option-Nodup _ v s h = h
