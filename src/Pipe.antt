-- ===== src/Pipe.antt =====
-- pipe.go: the identifiers of pipes, which are unique among the open pipes of the process.
pub mod Identifiers
use mangos_v.Prelude.{
  ℕ, zero, suc, ◌+◌, ◌%◌, ◌^◌, Bool, true, false, ◌&&◌, not, Option, none, some, ◌==◌,
  if◌then◌else◌,
}
use mangos_v.Prelude.Table.{Table, delete, insert, lookup}
use mangos_v.Prelude.Bytes.{u32}

-- The variable `pipes`; each identifier leads to its pipe.
pub record Pipes {ℓ} (P : Type ℓ) : Type ℓ where
  pub byid : Table P
  pub nextid : ℕ  -- uint32

abbrev is_none {ℓ} : {A : Type ℓ} → Option A → Bool
is_none none = true
is_none (some a) = false

-- `p.id != 0 && pipes.byid[p.id] == nil`.
abbrev pub is_free {ℓ} : {P : Type ℓ} → Table P → ℕ → Bool
is_free t id = not (id == 0) && is_none (lookup id t)

-- The `for` of `newPipe`, for at most so many turns; `none` if they do not suffice.
unfoldable pub new_pipe {ℓ} : {P : Type ℓ} → ℕ → P → Pipes P → Option (ℕ × Pipes P)
new_pipe zero p s = none
new_pipe (suc turns) p s =
    let id = s.nextid % 2 ^ 31 in
    let s' = record s { nextid = u32 (s.nextid + 1) } in
    let later = new_pipe turns p s' in
    if is_free s.byid id then some (id, record s' { byid = insert id p s.byid }) else later

-- The end of `Close`: the identifier is given back.
unfoldable pub forget {ℓ} : {P : Type ℓ} → ℕ → Pipes P → Pipes P
forget id s = record s { byid = delete id s.byid }
