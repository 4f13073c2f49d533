-- ===== src/Prelude/Strings.antt =====
-- Go's functions on byte slices and strings, which are byte strings here: `HasPrefix`, `Equal` (`==`) and
-- `Index` of the packages bytes and strings.
use Prim.Native.Nat.{ℕ, suc}
use mathlib.Core.Path.{◌≡◌, refl, ap}
use mathlib.Core.Logic.{◌↔◌, inl, inr}
use mathlib.Core.Bool.{Bool, true, false, ◌&&◌}
use mathlib.Core.Option.{Option, none, some}
use mathlib.Core.List.{[], ◌∷◌, ◌++◌}
use native.Mathlib.Omega.{arith}
use mangos_v.Prelude.Tests.{◌==◌, if◌then◌else◌, ==_refl, ==_iff, Bool-cases}
use mangos_v.Prelude.Bytes.{Bytes}

-- `bytes.HasPrefix(body, sub)` and `bytes.Equal`.
unfoldable pub has_prefix : Bytes → Bytes → Bool
has_prefix body [] = true
has_prefix [] (b ∷ sub) = false
has_prefix (a ∷ body) (b ∷ sub) = let rest = has_prefix body sub in a == b && rest

unfoldable pub equal : Bytes → Bytes → Bool
equal [] [] = true
equal (a ∷ xs) (b ∷ ys) = let rest = equal xs ys in a == b && rest
equal _ _ = false

-- The bytes start with the second ones.
abbrev pub StartsWith : Bytes → Bytes → Type 0
StartsWith body sub = (rest : Bytes) × (body ≡ sub ++ rest)

pub has_prefix_sound : (body sub : Bytes) → has_prefix body sub ≡ true → StartsWith body sub
unfolding has_prefix
has_prefix_sound body [] h = (body, refl)
has_prefix_sound [] (b ∷ sub) h = cc
has_prefix_sound (a ∷ body) (b ∷ sub) h = elim (Bool-cases (a == b)) [
  | inl same ↦
      let (rest, e) = has_prefix_sound body sub (ground arith) in
      (rest, rw ((==_iff a b).0 same) (ap (◌∷◌ b) e))
  | inr other ↦ absurd (ground arith)
]

pub has_prefix-append : (sub rest : Bytes) → has_prefix (sub ++ rest) sub ≡ true
unfolding has_prefix
has_prefix-append [] rest = refl
has_prefix-append (b ∷ sub) rest = rw (==_refl b, has_prefix-append sub rest) refl

pub equal_iff : (a b : Bytes) → (equal a b ≡ true) ↔ (a ≡ b)
unfolding equal
equal_iff [] [] = (λ _. refl, λ _. refl)
equal_iff [] (b ∷ ys) = (λ h. cc, λ h. cc)
equal_iff (a ∷ xs) [] = (λ h. cc, λ h. cc)
equal_iff (a ∷ xs) (b ∷ ys) =
    let (to, from) = equal_iff xs ys in (λ h. ground (arith, to), λ h. ground (arith, from))

-- `Index(s, sep)`; `none` is -1.
abbrev pub later_by_one : Option ℕ → Option ℕ
later_by_one none = none
later_by_one (some n) = some (suc n)

unfoldable pub index : Bytes → Bytes → Option ℕ
index [] sep = if has_prefix [] sep then some 0 else none
index (b ∷ rest) sep =
    let more = index rest sep in if has_prefix (b ∷ rest) sep then some 0 else later_by_one more
