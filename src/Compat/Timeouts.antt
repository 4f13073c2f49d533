-- ===== src/Compat/Timeouts.antt =====
-- The timeouts of a compat socket.
use mangos_v.Prelude.{
  ℕ, suc, ◌≡◌, refl, ap, ◌∙◌, true, Bool-cases, inl, inr, ◌==◌, arith, length, some, List,
}
use mangos_v.Prelude.Bytes.{Bytes}
use mangos_v.Prelude.Int.{ℤ, pos, negsuc}
use mangos_v.Errors.{bad_option}
use mangos_v.Message.{Message}
use mangos_v.Options.{OptionName, Value}
use mangos_v.Core.{Operations, RecvCase, SendCase, Socket, recv_msg, send_msg}
use mangos_v.Compat.{
  Compat, sized, domain_set, af_sp, af_sp_raw, holding, written_by, receives_on, sends_on,
  timeout_value, new_socket, opened, panics_receiving, panics_writing, received_from, recv, send,
  set_recv_timeout, set_send_timeout,
}
use mangos_v.Core
use mangos_v.Core.Options as Own

-- The protocol leaves the deadlines to the socket.
pub record LeavesDeadlines {S : Type 0} (P : Operations S) : Type 0 where
  pub leaves_recv :
      (v : Value) (p : S) → P.set_option OptionName.recv_deadline v p ≡ (p, some bad_option)
  pub leaves_send :
      (v : Value) (p : S) → P.set_option OptionName.send_deadline v p ≡ (p, some bad_option)

sized-untimed :
    {S : Type 0} (P : Operations S) (dom : ℕ) (x : Socket S × Own.Outcome) (c : Compat S)
    → sized P dom x ≡ opened c
    → (c.rto ≡ negsuc 0) × (c.sto ≡ negsuc 0)
sized-untimed P dom (s, Own.done) c e = ground arith
sized-untimed P dom (s, Own.refused e') c e = cc
sized-untimed P dom (s, Own.panicked_option) c e = cc

domain_set-untimed :
    {S : Type 0} (P : Operations S) (dom : ℕ) (x : Socket S × Own.Outcome) (c : Compat S)
    → domain_set P dom x ≡ opened c
    → (c.rto ≡ negsuc 0) × (c.sto ≡ negsuc 0)
domain_set-untimed P dom (s, Own.done) c e =
    sized-untimed P dom (Own.set_option P OptionName.write_q_len (Value.int (pos 0)) s) c e
domain_set-untimed P dom (s, Own.refused e') c e = cc
domain_set-untimed P dom (s, Own.panicked_option) c e = cc

new_socket-untimed :
    {S : Type 0} (P : Operations S) (dom : ℕ) (proto : S) (c : Compat S)
    → new_socket P dom proto ≡ opened c
    → (c.rto ≡ negsuc 0) × (c.sto ≡ negsuc 0)
unfolding new_socket
new_socket-untimed P dom proto c made = elim (Bool-cases (dom == af_sp)) [
  | inl cooked ↦ domain_set-untimed P dom (Core.new_socket proto, Own.done) c (rw cooked at made)
  | inr other ↦ elim (Bool-cases (dom == af_sp_raw)) [
    | inl is_raw ↦
        domain_set-untimed P dom
          (Own.set_option P OptionName.raw (Value.bool true) (Core.new_socket proto)) c
          (rw (other, is_raw) at made)
    | inr neither ↦ absurd (ground (arith, made, other, neither))
  ]
]

module _ {S : Type 0} (P : Operations S) (l : LeavesDeadlines P) where
  open l use {leaves_recv, leaves_send}

  recv_duration :
      (d : ℤ) (s : Socket S)
      → Own.set_option P OptionName.recv_deadline (Value.duration d) s
        ≡ (record s { rdeadline = d }, Own.done)
  unfolding Own.set_option
  recv_duration d s = rw (leaves_recv (Value.duration d) s.proto) refl

  recv_number :
      (i : ℤ) (s : Socket S)
      → Own.set_option P OptionName.recv_deadline (Value.int i) s ≡ (s, Own.panicked_option)
  unfolding Own.set_option
  recv_number i s = rw (leaves_recv (Value.int i) s.proto) refl

  send_duration :
      (d : ℤ) (s : Socket S)
      → Own.set_option P OptionName.send_deadline (Value.duration d) s
        ≡ (record s { wdeadline = d }, Own.done)
  unfolding Own.set_option
  send_duration d s = rw (leaves_send (Value.duration d) s.proto) refl

  send_number :
      (i : ℤ) (s : Socket S)
      → Own.set_option P OptionName.send_deadline (Value.int i) s ≡ (s, Own.panicked_option)
  unfolding Own.set_option
  send_number i s = rw (leaves_send (Value.int i) s.proto) refl

  -- With a positive receive timeout: `Recv` without flags is `RecvMsg` of the socket with that deadline, and
  -- gives the message's body, after the header on a raw socket.
  pub recv-recv_msg :
      (cases : List RecvCase) (n : ℕ) (c : Compat S)
      → recv P (pos 0) cases (set_recv_timeout (pos (suc n)) c)
        ≡ received_from P
            (set_recv_timeout (pos (suc n)) c)
            (recv_msg P cases (record c.sock { rdeadline = pos (suc n) }))
  unfolding recv set_recv_timeout
  recv-recv_msg cases n c =
      ap (receives_on P (set_recv_timeout (pos (suc n)) c) cases)
        (recv_duration (pos (suc n)) c.sock)

  -- With a positive send timeout: `Send` without flags is `SendMsg` of the socket with that deadline, of a
  -- message with an empty header and with all the bytes as its body.
  pub send-send_msg :
      (now n : ℕ) (case : SendCase) (blank : Message) (b : Bytes) (c : Compat S)
      → send P now case blank b (pos 0) (set_send_timeout (pos (suc n)) c)
        ≡ written_by P
            (set_send_timeout (pos (suc n)) c)
            (length b)
            (send_msg P now case (holding P blank b) (record c.sock { wdeadline = pos (suc n) }))
  unfolding send set_send_timeout
  send-send_msg now n case blank b c =
      ap (sends_on P (set_send_timeout (pos (suc n)) c) now case (holding P blank b) (length b))
        (send_duration (pos (suc n)) c.sock)

  recv_untimed :
      (cases : List RecvCase) (c : Compat S)
      → c.rto ≡ negsuc 0
      → (recv P (pos 0) cases c).1 ≡ panics_receiving
  unfolding recv
  recv_untimed cases c untimed =
      ap
        (λ t.
          (receives_on P c cases
            (Own.set_option P OptionName.recv_deadline (timeout_value P t) c.sock)).1)
        untimed
      ∙ ap (λ x. (receives_on P c cases x).1) (recv_number (pos 0) c.sock)

  send_untimed :
      (now : ℕ) (case : SendCase) (blank : Message) (b : Bytes) (c : Compat S)
      → c.sto ≡ negsuc 0
      → (send P now case blank b (pos 0) c).1 ≡ panics_writing
  unfolding send
  send_untimed now case blank b c untimed =
      ap
        (λ t.
          (sends_on P c now case (holding P blank b) (length b)
            (Own.set_option P OptionName.send_deadline (timeout_value P t) c.sock)).1)
        untimed
      ∙ ap (λ x. (sends_on P c now case (holding P blank b) (length b) x).1)
          (send_number (pos 0) c.sock)

  -- Where the protocol leaves the deadlines to the socket, a new compat socket, in either domain, on which no timeout has been set: the first `Recv` without flags panics,
  -- and so does the first `Send`, whatever would be ready and whatever is sent.
  pub new_socket-panics :
      (dom : ℕ) (proto : S) (c : Compat S)
      → new_socket P dom proto ≡ opened c
      → ((cases : List RecvCase) → (recv P (pos 0) cases c).1 ≡ panics_receiving)
        × ((now : ℕ) (case : SendCase) (blank : Message) (b : Bytes)
            → (send P now case blank b (pos 0) c).1 ≡ panics_writing)
  new_socket-panics dom proto c made =
      let (r, s) = new_socket-untimed P dom proto c made in
      (λ cases. recv_untimed cases c r, λ now case blank b. send_untimed now case blank b c s)
