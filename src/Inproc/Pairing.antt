-- ===== src/Inproc/Pairing.antt =====
-- Pipes of the in-process transport are paired: what goes in at one end comes out at the other.
use mangos_v.Prelude.{
  ℕ, ◌+◌, ◌≤◌, ◌<◌, ◌≡◌, refl, ap, ◌∙◌, inl, inr, Option, none, some, List, [], ◌∷◌, ◌++◌, arith,
  ◌==◌, if◌then◌else◌, Option-cases,
}
use mangos_v.Inproc.{Broker, Listener, end_at, split_last, connect, client_end, server_end}
use mangos_v.Prelude.Table.{Table, insert, lookup, lookup-insert}
use mangos_v.Message.{free}

-- How often a pipe waits to be accepted.
abbrev pub count : ℕ → List ℕ → ℕ
count s [] = 0
count s (x ∷ xs) = let rest = count s xs in if x == s then rest + 1 else rest

abbrev pub waiting : ℕ → Table Listener → ℕ
waiting s [] = 0
waiting s ((lid, l) ∷ t) = count s l.accepters + waiting s t

abbrev pub queue_of : Option Listener → List ℕ
queue_of none = []
queue_of (some l) = l.accepters

-- The peer is a peer in turn, and reads what this one writes.
abbrev pub Linked : Broker → Type 0
Linked b =
    (i j : ℕ)
    → (end_at b i).peer ≡ some j
    → ((end_at b j).peer ≡ some i) × ((end_at b i).wq ≡ (end_at b j).rq)

pub record Inv (b : Broker) : Type 0 where
  pub linked : Linked b
  pub once : (s : ℕ) → waiting s b.objects ≤ 1
  pub idle : (s : ℕ) → 1 ≤ waiting s b.objects → ((end_at b s).peer ≡ none) × (s < b.next)
  pub new_end : (i : ℕ) → b.next ≤ i → (end_at b i).peer ≡ none
  pub new_object : (i : ℕ) → b.next ≤ i → lookup i b.objects ≡ none

pub count-snoc :
    (s x : ℕ) (xs : List ℕ) → count s (xs ++ (x ∷ [])) ≡ count s xs + (if x == s then 1 else 0)
count-snoc s x [] = ground arith
count-snoc s x (y ∷ xs) = ground (arith, count-snoc s x xs)

abbrev pub parts : ℕ → Option (List ℕ × ℕ) → ℕ
parts s none = 0
parts s (some (rest, x)) = count s rest + (if x == s then 1 else 0)

pub count-split_last : (s : ℕ) (xs : List ℕ) → count s xs ≡ parts s (split_last xs)
unfolding split_last
count-split_last s [] = refl
count-split_last s (y ∷ xs) = elim (Option-cases (split_last xs)) [
  | inl e ↦
      rw (e, split_last)
        (let ih : count s xs ≡ 0 = count-split_last s xs ∙ ap (parts s) e in ground arith)
  | inr ((rest, x), e) ↦
      rw (e, split_last)
        (let ih : count s xs ≡ count s rest + (if x == s then 1 else 0) =
            count-split_last s xs ∙ ap (parts s) e in
          ground arith)
]

-- Another queue for a listener.
pub waiting-insert :
    (s lid : ℕ) (l : Listener) (t : Table Listener)
    → waiting s (insert lid l t) + count s (queue_of (lookup lid t))
      ≡ waiting s t + count s l.accepters
unfolding insert lookup
waiting-insert s lid l [] = omega arith
waiting-insert s lid l ((j, k) ∷ t) = ground (arith, waiting-insert s lid l t)

-- The listener's queue loses its last pipe.
pub waiting-popped :
    (s x lid : ℕ) (l : Listener) (rest : List ℕ) (t : Table Listener)
    → lookup lid t ≡ some l
    → split_last l.accepters ≡ some (rest, x)
    → waiting s (insert lid (record l { accepters = rest }) t) + (if x == s then 1 else 0)
      ≡ waiting s t
waiting-popped s x lid l rest t known split =
    let change = waiting-insert s lid (record l { accepters = rest }) t in
    let old : count s (queue_of (lookup lid t)) ≡ count s l.accepters = rw known refl in
    let popped : count s l.accepters ≡ count s rest + (if x == s then 1 else 0) =
      count-split_last s l.accepters ∙ ap (parts s) split in
    omega arith

pub end_at-connect :
    (s j : ℕ) (b : Broker)
    → end_at (connect s b) j ≡ (
        if b.next == j
        then client_end s
        else if s == j
        then server_end b.next s (end_at b s)
        else end_at b j)
unfolding connect
end_at-connect s j b =
    rw
      (
        lookup-insert b.next j (client_end s) (insert s (server_end b.next s (end_at b s)) b.ends),
        lookup-insert s j (server_end b.next s (end_at b s)) b.ends,
      )
      (ground arith)

-- Linking a new client to a server without a peer keeps the links.
pub connect-Linked :
    (s : ℕ) (b : Broker)
    → Linked b
    → (end_at b s).peer ≡ none
    → s < b.next
    → ((i : ℕ) → b.next ≤ i → (end_at b i).peer ≡ none)
    → Linked (connect s b)
connect-Linked s b linked free old new_end i j e =
    let at_i = end_at-connect s i b in
    let at_j = end_at-connect s j b in ground (arith, linked i j, new_end b.next)
