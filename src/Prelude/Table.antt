-- ===== src/Prelude/Table.antt =====
-- Go's `map[uint32]T` as an association list, and the laws of its operations.
use Prim.Native.Nat.{ℕ}
use mathlib.Core.Path.{◌≡◌, refl}
use mathlib.Core.List.{List, [], ◌∷◌}
use mathlib.Core.Option.{Option, none, some}
use native.Mathlib.Omega.{arith}
use mangos_v.Prelude.Tests.{◌==◌, if◌then◌else◌, ==_refl}

abbrev pub Table {ℓ} : Type ℓ → Type ℓ
Table V = List (ℕ × V)

module _ {ℓ} {V : Type ℓ} where
  unfoldable pub lookup : ℕ → Table V → Option V
  lookup k [] = none
  lookup k ((j, v) ∷ t) = if j == k then some v else lookup k t

  -- `m[k] = v`.
  unfoldable pub insert : ℕ → V → Table V → Table V
  insert k v [] = (k, v) ∷ []
  insert k v ((j, w) ∷ t) = if j == k then (k, v) ∷ t else (j, w) ∷ insert k v t

  -- `delete(m, k)`.
  unfoldable pub delete : ℕ → Table V → Table V
  delete k [] = []
  delete k ((j, w) ∷ t) = let rest = delete k t in if j == k then rest else (j, w) ∷ rest

  pub lookup-insert :
      (k j : ℕ) (v : V) (t : Table V)
      → lookup j (insert k v t) ≡ (if k == j then some v else lookup j t)
  unfolding lookup insert
  lookup-insert k j v [] = refl
  lookup-insert k j v ((i, w) ∷ t) = ground (arith, lookup-insert k j v t)

  pub lookup-delete :
      (k j : ℕ) (t : Table V) → lookup j (delete k t) ≡ (if k == j then none else lookup j t)
  unfolding lookup delete
  lookup-delete k j [] = ground arith
  lookup-delete k j ((i, w) ∷ t) = ground (arith, lookup-delete k j t)

  pub lookup-insert_self : (k : ℕ) (v : V) (t : Table V) → lookup k (insert k v t) ≡ some v
  lookup-insert_self k v t = rw (lookup-insert k k v t, ==_refl k) refl

  pub lookup-delete_self : (k : ℕ) (t : Table V) → lookup k (delete k t) ≡ none
  lookup-delete_self k t = rw (lookup-delete k k t, ==_refl k) refl

  -- Every value of the table satisfies `P`.
  abbrev pub AllValues {κ} : (V → Type κ) → Table V → Type κ
  AllValues P [] = Unit {κ}
  AllValues P ((k, v) ∷ t) = P v × AllValues P t

  pub AllValues-insert {κ} :
      (P : V → Type κ) (k : ℕ) (v : V) (t : Table V)
      → P v
      → AllValues P t
      → AllValues P (insert k v t)
  unfolding insert
  AllValues-insert P k v [] p h = (p, tt)
  AllValues-insert P k v ((j, w) ∷ t) p h = ground (arith, AllValues-insert P k v t p h.1)

  pub AllValues-delete {κ} :
      (P : V → Type κ) (k : ℕ) (t : Table V) → AllValues P t → AllValues P (delete k t)
  unfolding delete
  AllValues-delete P k [] h = tt
  AllValues-delete P k ((j, w) ∷ t) h = ground (arith, AllValues-delete P k t h.1)

  pub AllValues-lookup {κ} :
      (P : V → Type κ) (k : ℕ) (v : V) (t : Table V) → AllValues P t → lookup k t ≡ some v → P v
  unfolding lookup
  AllValues-lookup P k v [] h e = cc
  AllValues-lookup P k v ((j, w) ∷ t) h e = ground (arith, AllValues-lookup P k v t h.1)
