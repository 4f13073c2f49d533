-- ===== src/Core/Sending.antt =====
-- What `SendMsg` does to the send queue.
use mangos_v.Prelude.{
  ℕ, ◌≡◌, refl, inl, inr, Bool, true, false, ◌&&◌, none, some, List, [], ◌∷◌, ◌++◌, arith,
  if◌then◌else◌, Bool-cases, Option-cases,
}
use mangos_v.Chan.{IsSound, grown-IsSound, has_room, offer_full, offer_room}
use mangos_v.Message.{Message}
use mangos_v.Core.{
  Operations, SendCase, Sent, Socket, has_timer, later, send_msg, accepted, hooked, panics_send,
  waits, closes, queues, times_out, send_best_effort, send_select, try_queue,
}

-- What the queue is after a call with that result.
abbrev pub queued_by : Sent → Message → List Message → List Message
queued_by accepted m items = items ++ (m ∷ [])
queued_by _ m items = items

abbrev pub is_panicking : Sent → Bool
is_panicking panics_send = true
is_panicking _ = false

abbrev pub is_waiting : Sent → Bool
is_waiting waits = true
is_waiting _ = false

-- What the queue is offered: the message as the hook leaves it, with its time to expire.
abbrev pub outgoing : {S : Type 0} → Operations S → ℕ → Message → Socket S → Message
outgoing P now m s = record (hooked P P.send_hook s.proto m).1 {
  expire = if has_timer s.wdeadline then some (later now s.wdeadline) else none;
}

-- The queue of `s'` is that of `s` with what the result says.
abbrev Accounts : {S : Type 0} → Socket S → Message → Socket S × Sent → Type 0
Accounts s m r =
    (r.0.uwq.items ≡ queued_by r.1 m s.uwq.items)
    × IsSound r.0.uwq
    × (is_panicking r.1 ≡ false)
    × ((s.best_effort && is_waiting r.1) ≡ false)

module _ {S : Type 0} (P : Operations S) (m : Message) (s : Socket S) (sound : IsSound s.uwq) where
  try_queue-Accounts : Accounts s m (try_queue P m s)
  unfolding try_queue
  try_queue-Accounts = elim (Bool-cases (has_room s.uwq)) [
    | inl room ↦
        rw (offer_room s.uwq m sound.is_open room, try_queue)
          (refl, grown-IsSound s.uwq m sound room, refl, ground arith)
    | inr no_more ↦
        rw (offer_full s.uwq m sound.is_open no_more, try_queue)
          (elim (Bool-cases s.is_closing) [
            | inl e ↦ rw e (refl, sound, refl, ground arith)
            | inr e ↦ rw e (refl, sound, refl, ground arith)
          ])
  ]

  send_select-Accounts : (c : SendCase) → s.best_effort ≡ false → Accounts s m (send_select P c m s)
  unfolding send_select
  send_select-Accounts times_out calm = elim (Bool-cases (has_timer s.wdeadline)) [
    | inl e ↦ rw e (refl, sound, refl, rw calm refl)
    | inr e ↦ rw e (refl, sound, refl, rw calm refl)
  ]
  send_select-Accounts closes calm = elim (Bool-cases s.is_closing) [
    | inl e ↦ rw e (refl, sound, refl, rw calm refl)
    | inr e ↦ rw e (refl, sound, refl, rw calm refl)
  ]
  send_select-Accounts queues calm = elim (Bool-cases (has_room s.uwq)) [
    | inl room ↦
        rw (offer_room s.uwq m sound.is_open room, send_select)
          (refl, grown-IsSound s.uwq m sound room, refl, rw calm refl)
    | inr no_more ↦
        rw (offer_full s.uwq m sound.is_open no_more, send_select) (refl, sound, refl, rw calm refl)
  ]

  send_best_effort-Accounts : (c : SendCase) → Accounts s m (send_best_effort P c m s)
  unfolding send_best_effort
  send_best_effort-Accounts closes = elim (Bool-cases s.is_closing) [
    | inl e ↦ rw e (refl, sound, refl, ground arith)
    | inr e ↦ rw e (rw e at try_queue-Accounts)
  ]
  send_best_effort-Accounts times_out = try_queue-Accounts
  send_best_effort-Accounts queues = try_queue-Accounts

-- While the send queue is open: the queue gains the message at its end if the call reports that it
-- is queued and is as it was otherwise, it stays within its bound, the call does not panic, and on a
-- best effort socket it does not wait.
pub send_msg-IsSound :
    {S : Type 0} (P : Operations S) (now : ℕ) (c : SendCase) (m : Message) (s : Socket S)
    → IsSound s.uwq
    → let (s', sent) = send_msg P now c m s in
      (s'.uwq.items ≡ queued_by sent (outgoing P now m s) s.uwq.items)
      × IsSound s'.uwq
      × (is_panicking sent ≡ false)
      × ((s.best_effort && is_waiting sent) ≡ false)
unfolding send_msg
send_msg-IsSound {S} P now c m s sound =
    let out : Message = outgoing P now m s in
    let s' : Socket S = record s { proto = (hooked P P.send_hook s.proto m).0 } in
    elim (Option-cases (P.sock s.proto).senderr) [
      | inr (e, failing) ↦ rw (failing, send_msg) (refl, sound, refl, ground arith)
      | inl fine ↦
          rw (fine, send_msg)
            (elim (Bool-cases (hooked P P.send_hook s.proto m).2) [
              | inr stopped ↦ rw stopped (refl, sound, refl, ground arith)
              | inl passed ↦ rw passed (elim (Bool-cases s.best_effort) [
                | inl quick ↦ rw quick (rw quick at (send_best_effort-Accounts P out s' sound c))
                | inr calm ↦ rw calm (rw calm at (send_select-Accounts P out s' sound c calm))
              ])
            ])
    ]

-- What a call leaves that finds room.
abbrev pub after_send : {S : Type 0} → Operations S → ℕ → Message → Socket S → Socket S
after_send P now m s =
    let q = s.uwq in
    record s {
      proto = (hooked P P.send_hook s.proto m).0;
      uwq = record q { items = q.items ++ (outgoing P now m s ∷ []) };
    }

pub send_msg_room :
    {S : Type 0} (P : Operations S) (now : ℕ) (m : Message) (s : Socket S)
    → (P.sock s.proto).senderr ≡ none
    → (hooked P P.send_hook s.proto m).2 ≡ true
    → s.uwq.is_closed ≡ false
    → has_room s.uwq ≡ true
    → send_msg P now queues m s ≡ (after_send P now m s, accepted)
unfolding send_msg
send_msg_room P now m s fine passed open_q room =
    let taken_up = offer_room s.uwq (outgoing P now m s) open_q room in
    rw (fine, send_msg)
      (rw passed (elim (Bool-cases s.best_effort) [
        | inl quick ↦ rw quick (rw (taken_up, send_best_effort, try_queue) refl)
        | inr calm ↦ rw calm (rw (taken_up, send_select) refl)
      ]))
