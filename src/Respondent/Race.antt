-- ===== src/Respondent/Race.antt =====
-- RESPONDENT's sender looks the peer up under the lock and sends to its queue after the unlock.
-- Here the removal of an endpoint comes between the two, as the calls interleave in the program.
use mangos_v.Prelude.{
  ℕ, ◌^◌, ◌<◌, ◌≡◌, refl, Bool, true, false, ◌||◌, none, some, List, [], ◌∷◌, ◌++◌, arith,
}
use mangos_v.Respondent.{Respondent, find_peer, push, remove_endpoint}
use mangos_v.Message.{Message}
use mangos_v.Chan.{Chan, close, offer}
use mangos_v.Prelude.Bytes.{Bytes, bytes, put_u32, get-put_u32, not-short, skip4}
use mangos_v.Prelude.Table.{Table, insert, lookup, lookup-insert_self, lookup-delete_self}
use mangos_v.Protocol.{is_panic}

-- The sender's goroutine: at its `select`, or holding a peer.
pub data Phase : Type 0 where
  waiting : Phase
  holding : ℕ → Message → Phase

-- The queues of removed endpoints are still reached by whoever holds the peer.
pub record System : Type 0 where
  pub state : Respondent
  pub removed : Table (Chan Message)
  pub phase : Phase

-- What the goroutines do between two locks: the sender's two halves, and the two halves of
-- `RemoveEndpoint` (the deletion, and `close(peer.q)` after the unlock).
pub data Action : Type 0 where
  finds : Message → Action
  pushes : Action
  removes closes : ℕ → Action

find_step : System → Message → System × Bool
find_step s m = elim (find_peer s.state m) [
  | none ↦ (s, false)
  | some (id, m') ↦ (record s { phase = holding id m' }, false)
]

-- The peer's queue: in the map, or else among the removed ones.
push_step : System → Phase → System × Bool
push_step s waiting = (s, false)
push_step s (holding id m) = elim (lookup id s.state.peers) [
  | some q ↦
      let (x', route) = push s.state id q m in
      (record s { state = x'; phase = waiting }, is_panic route)
  | none ↦ elim (lookup id s.removed) [
    | none ↦ (record s { phase = waiting }, false)
    | some q ↦ (record s { phase = waiting }, is_panic (push s.state id q m).1)
  ]
]

-- `RemoveEndpoint` up to its unlock.
remove_step : System → ℕ → System × Bool
remove_step s id = elim (lookup id s.state.peers) [
  | none ↦ (s, false)
  | some q ↦
      (record s { state = (remove_endpoint id s.state).0; removed = insert id q s.removed }, false)
]

close_step : System → ℕ → System × Bool
close_step s id = elim (lookup id s.removed) [
  | none ↦ (s, false)
  | some q ↦ (record s { removed = insert id (close q) s.removed }, false)
]

-- One action, and whether it panics.
unfoldable pub step : System → Action → System × Bool
unfolding find_step push_step remove_step close_step
step s (finds m) = find_step s m
step s pushes = push_step s s.phase
step s (removes id) = remove_step s id
step s (closes id) = close_step s id

unfoldable pub run : System → List Action → System × Bool
run s [] = (s, false)
run s (a ∷ acts) = let (s', bad) = step s a in let (s'', worse) = run s' acts in (s'', bad || worse)

finds_known :
    (s : System) (id : ℕ) (rest : Bytes) (m : Message) (q : Chan Message)
    → id < 2 ^ 32
    → bytes m.header ≡ put_u32 id ++ rest
    → lookup id s.state.peers ≡ some q
    → step s (finds m)
      ≡ (record s { phase = holding id (record m { header = skip4 m.header }) }, false)
unfolding step find_step find_peer
finds_known s id rest m q small header known =
    ground (arith, get-put_u32 id rest, not-short id rest)

removed_from : System → ℕ → Chan Message → System
removed_from s id q = record s {
  state = (remove_endpoint id s.state).0;
  removed = insert id q s.removed;
}

removes_known :
    (s : System) (id : ℕ) (q : Chan Message)
    → lookup id s.state.peers ≡ some q
    → step s (removes id) ≡ (removed_from s id q, false)
unfolding step remove_step removed_from
removes_known s id q known = rw (known, remove_step) refl

closed_in : System → ℕ → Chan Message → System
closed_in s id q = record s { removed = insert id (close q) s.removed }

closes_known :
    (s : System) (id : ℕ) (q : Chan Message)
    → lookup id s.removed ≡ some q
    → step s (closes id) ≡ (closed_in s id q, false)
unfolding step close_step closed_in
closes_known s id q known = rw (known, close_step) refl

push_closed :
    (s : System) (id : ℕ) (q : Chan Message) (m : Message)
    → s.phase ≡ holding id m
    → lookup id s.state.peers ≡ none
    → lookup id s.removed ≡ some (close q)
    → step s pushes ≡ (record s { phase = waiting }, true)
unfolding step push_step push offer close
push_closed s id q m e gone there = rw (e, gone, there, push_step) refl

-- While a message for the known pipe `id` is at the head of the sender, the removal of that pipe
-- between the sender's two halves makes the sender panic.
pub removal_panics :
    (s : System) (id : ℕ) (rest : Bytes) (m : Message) (q : Chan Message)
    → id < 2 ^ 32
    → bytes m.header ≡ put_u32 id ++ rest
    → lookup id s.state.peers ≡ some q
    → (run s (finds m ∷ removes id ∷ closes id ∷ pushes ∷ [])).1 ≡ true
unfolding run removed_from closed_in remove_endpoint
removal_panics s id rest m q small header known =
    let m' = record m { header = skip4 m.header } in
    let s1 = record s { phase = holding id m' } in
    let s2 = removed_from s1 id q in
    rw (finds_known s id rest m q small header known, run)
      (rw (removes_known s1 id q known, run)
        (rw (closes_known s2 id q (lookup-insert_self id q s.removed), run)
          (rw
            (
              push_closed (closed_in s2 id q) id q m' refl (lookup-delete_self id s.state.peers)
                  (lookup-insert_self id (close q) (insert id q s.removed)),
              run,
            )
            refl)))
