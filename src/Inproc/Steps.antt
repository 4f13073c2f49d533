-- ===== src/Inproc/Steps.antt =====
-- What each call of the in-process transport keeps true of its pipes.
use mangos_v.Prelude.{
  ℕ, ◌+◌, ◌≤◌, ◌≡◌, refl, sym, ◌∙◌, inl, inr, Bool, true, false, none, some, List, [], ◌∷◌, ◌++◌,
  arith, ◌==◌, if◌then◌else◌, Bool-cases, Option-cases,
}
use mangos_v.Inproc.{
  Answer, Broker, End, Listener, blank_end, close_pipe, connect, dial, end_at, new_listener,
  split_last, stuck, accept_at, close_at, close_end, close_ends, dial_at, is_at, listen_at,
  with_listener,
}
use mangos_v.Inproc.Pairing.{
  Inv, connect-Linked, count, count-snoc, end_at-connect, queue_of, waiting, waiting-insert,
  waiting-popped,
}
use mangos_v.Peers.{Kind, valid_peers}
use mangos_v.Prelude.Table.{Table, delete, insert, lookup, lookup-insert}
use mangos_v.Message.{free}

-- The same peer and the same channels.
abbrev Same : End → End → Type 0
Same d e = (d.peer ≡ e.peer) × (d.rq ≡ e.rq) × (d.wq ≡ e.wq)

Inv-shrinks :
    (b b' : Broker)
    → ((i : ℕ) → Same (end_at b' i) (end_at b i))
    → ((s : ℕ) → waiting s b'.objects ≤ waiting s b.objects)
    → b'.next ≡ b.next
    → ((i : ℕ) → b.next ≤ i → lookup i b'.objects ≡ none)
    → Inv b
    → Inv b'
Inv-shrinks b b' same fewer next objects h = record {
  linked = λ i j e.
      let (pi, ri, wi) = same i in
      let (pj, rj, wj) = same j in
      let (back, cross) = h.linked i j (sym pi ∙ e) in (pj ∙ back, wi ∙ cross ∙ sym rj);
  once = λ s. omega (arith, fewer s, h.once s);
  idle = λ s some_wait.
      let (free, old) = h.idle s (omega (arith, fewer s)) in ((same s).0 ∙ free, omega arith);
  new_end = λ i late. (same i).0 ∙ h.new_end i (omega arith);
  new_object = λ i late. objects i (omega arith);
}

close_end-Same : (id : ℕ) (b : Broker) (i : ℕ) → Same (end_at (close_end id b) i) (end_at b i)
unfolding close_end
close_end-Same id b i =
    ground (arith, lookup-insert id i (let e = end_at b id in record e { is_closed = true }) b.ends)

close_ends-Same :
    (ids : List ℕ) (b : Broker) (i : ℕ) → Same (end_at (close_ends ids b) i) (end_at b i)
unfolding close_ends
close_ends-Same [] b i = (refl, refl, refl)
close_ends-Same (id ∷ ids) b i =
    let (p, r, w) = close_ends-Same ids (close_end id b) i in
    let (p', r', w') = close_end-Same id b i in (p ∙ p', r ∙ r', w ∙ w')

close_ends-objects :
    (ids : List ℕ) (b : Broker)
    → ((close_ends ids b).objects ≡ b.objects) × ((close_ends ids b).next ≡ b.next)
unfolding close_ends close_end
close_ends-objects [] b = (refl, refl)
close_ends-objects (id ∷ ids) b = close_ends-objects ids (close_end id b)

-- The dial that finds a pipe waiting.
dialed-Inv :
    (b : Broker) (lid : ℕ) (l : Listener) (rest : List ℕ) (s : ℕ)
    → lookup lid b.objects ≡ some l
    → split_last l.accepters ≡ some (rest, s)
    → Inv b
    → Inv (connect s (record b { objects = insert lid (record l { accepters = rest }) b.objects }))
unfolding connect
dialed-Inv b lid l rest s known split h =
    let popped : (x : ℕ)
        → waiting x (insert lid (record l { accepters = rest }) b.objects)
            + (if s == x then 1 else 0)
          ≡ waiting x b.objects =
      λ x. waiting-popped x s lid l rest b.objects known split in
    let (free, old) = h.idle s (ground (arith, popped s)) in
    let b1 : Broker = record b { objects = insert lid (record l { accepters = rest }) b.objects } in
    record {
      linked = connect-Linked s b1 h.linked free old h.new_end;
      once = λ x. ground (arith, popped x, h.once x);
      idle = λ x some_wait.
          ground (arith, popped x, popped s, h.once x, h.idle x, end_at-connect s x b1);
      new_end = λ i late. ground (arith, end_at-connect s i b1, h.new_end i);
      new_object = λ i late.
          ground
            (arith, lookup-insert lid i (record l { accepters = rest }) b.objects, h.new_object i);
    }

pub accept_at-Inv :
    (b : Broker) (lid : ℕ) (l : Listener)
    → lookup lid b.objects ≡ some l
    → Inv b
    → Inv (accept_at lid l b).0
unfolding accept_at
accept_at-Inv b lid l known h =
    let l' : Listener = record l { accepters = l.accepters ++ (b.next ∷ []) } in
    let more : (x : ℕ)
        → waiting x (insert lid l' b.objects)
          ≡ waiting x b.objects + (if b.next == x then 1 else 0) =
      λ x.
        let change = waiting-insert x lid l' b.objects in
        let snoc = count-snoc x b.next l.accepters in
        let was : count x (queue_of (lookup lid b.objects)) ≡ count x l.accepters = rw known refl in
        omega arith in
    let ends : (x : ℕ)
        → lookup x (insert b.next blank_end b.ends)
          ≡ (if b.next == x then some blank_end else lookup x b.ends) =
      λ x. lookup-insert b.next x blank_end b.ends in
    record {
      linked = λ i j e. ground (arith, ends i, ends j, h.linked i j, h.new_end b.next);
      once = λ x. ground (arith, more x, h.once x, h.idle x);
      idle = λ x some_wait. ground (arith, more x, h.idle x, ends x);
      new_end = λ i late. ground (arith, ends i, h.new_end i);
      new_object = λ i late.
          ground (arith, lookup-insert lid i l' b.objects, h.new_object i, h.new_object lid);
    }

pub close_at-Inv :
    (b : Broker) (lid : ℕ) (l : Listener)
    → lookup lid b.objects ≡ some l
    → Inv b
    → Inv (close_at lid l b).0
unfolding close_at
close_at-Inv b lid l known h =
    let l' : Listener = record l { accepters = [] } in
    let b1 : Broker = record b {
      by_addr = if is_at lid (lookup l.addr b.by_addr) then delete l.addr b.by_addr else b.by_addr;
      objects = insert lid l' b.objects;
    } in
    let (objects, next) = close_ends-objects l.accepters b1 in
    Inv-shrinks b (close_ends l.accepters b1) (close_ends-Same l.accepters b1)
      (λ s. rw objects (let change = waiting-insert s lid l' b.objects in omega arith)) next
      (λ i late. rw objects (ground (arith, lookup-insert lid i l' b.objects, h.new_object i))) h

dial_at-Inv :
    (b : Broker) (kind : Kind) (lid : ℕ) (l : Listener)
    → lookup lid b.objects ≡ some l
    → Inv b
    → Inv (dial_at kind lid l b).0
unfolding dial_at
dial_at-Inv b kind lid l known h = elim (Bool-cases (valid_peers kind l.proto)) [
  | inr bad ↦ rw bad (record {
    linked = h.linked;
    once = h.once;
    idle = h.idle;
    new_end = h.new_end;
    new_object = h.new_object;
  })
  | inl good ↦ rw good (elim (Option-cases (split_last l.accepters)) [
    | inl e ↦ rw (e, dial_at) h
    | inr ((rest, s), e) ↦ rw (e, dial_at) (dialed-Inv b lid l rest s known e h)
  ])
]

if-Inv : (t : Bool) (x y : Broker × Answer) → Inv x.0 → Inv y.0 → Inv (if t then x else y).0
if-Inv true x y hx hy = hx
if-Inv false x y hx hy = hy

-- What leaves the pipes and the queues alone.
by_addr-Inv : (b : Broker) (t : Table ℕ) → Inv b → Inv (record b { by_addr = t })
by_addr-Inv b t h = record {
  linked = h.linked;
  once = h.once;
  idle = h.idle;
  new_end = h.new_end;
  new_object = h.new_object;
}

pub listen_at-Inv : (b : Broker) (lid : ℕ) (l : Listener) → Inv b → Inv (listen_at lid l b).0
unfolding listen_at
listen_at-Inv b lid l h = elim (Option-cases (lookup l.addr b.by_addr)) [
  | inl e ↦ rw (e, listen_at) (by_addr-Inv b (insert l.addr lid b.by_addr) h)
  | inr (other, e) ↦ rw (e, listen_at) h
]

pub new_listener-Inv :
    (b : Broker) (addr : ℕ) (kind : Kind) → Inv b → Inv (new_listener addr kind b).0
unfolding new_listener
new_listener-Inv b addr kind h =
    let l : Listener = record { addr = addr; proto = kind; accepters = [] } in
    let same : (x : ℕ) → waiting x (insert b.next l b.objects) ≡ waiting x b.objects = λ x.
      let change = waiting-insert x b.next l b.objects in
      let was : count x (queue_of (lookup b.next b.objects)) ≡ 0 =
        rw (h.new_object b.next (omega arith)) refl in
      omega arith in
    record {
      linked = h.linked;
      once = λ x. omega (arith, same x, h.once x);
      idle =
          λ x some_wait. let (free, old) = h.idle x (omega (arith, same x)) in (free, omega arith);
      new_end = λ i late. h.new_end i (omega arith);
      new_object = λ i late. ground (arith, lookup-insert b.next i l b.objects, h.new_object i);
    }

pub dial-Inv : (b : Broker) (addr : ℕ) (kind : Kind) → Inv b → Inv (dial addr kind b).0
unfolding dial
dial-Inv b addr kind h =
    if-Inv b.locked (b, stuck) _ h
      (elim (Option-cases (lookup addr b.by_addr)) [
        | inl e ↦ rw e h
        | inr (lid, e) ↦ rw e (elim (Option-cases (lookup lid b.objects)) [
          | inl e' ↦ rw e' h
          | inr (l, e') ↦ rw e' (dial_at-Inv b kind lid l e' h)
        ])
      ])

pub close_pipe-Inv : (b : Broker) (id : ℕ) → Inv b → Inv (close_pipe id b)
unfolding close_pipe
close_pipe-Inv b id h = elim (Bool-cases (end_at b id).is_closed) [
  | inl e ↦ rw e h
  | inr e ↦ rw e (
      Inv-shrinks b (close_end id b) (close_end-Same id b) (λ s. unfold close_end in omega arith)
        (unfold close_end in refl) (unfold close_end in h.new_object) h)
]

pub with_listener-Inv :
    (b : Broker) (lid : ℕ) (f : Listener → Broker → Broker × Answer)
    → ((l : Listener) → lookup lid b.objects ≡ some l → Inv (f l b).0)
    → Inv b
    → Inv (with_listener lid f b).0
with_listener-Inv b lid f keeps h =
    if-Inv b.locked (b, stuck) _ h
      (elim (Option-cases (lookup lid b.objects)) [
        | inl e ↦ rw e h
        | inr (l, e) ↦ rw e (keeps l e)
      ])
