-- ===== src/Rep/Safety.antt =====
-- REP's queues: what every call keeps true of them.
use mangos_v.Prelude.{
  ℕ, ◌≤◌, ◌≡◌, refl, inl, inr, Bool, false, ◌||◌, List, [], ◌∷◌, arith, ltb, Bool-cases,
  Option-cases, length,
}
use mangos_v.Prelude.Table.{AllValues, AllValues-insert, AllValues-delete, AllValues-lookup, lookup}
use mangos_v.Options.{OptionName, Value}
use mangos_v.Message.{Message}
use mangos_v.Chan.{IsSound, make-IsSound, offer-IsSound, Chan, make}
use mangos_v.Protocol.{ProtocolSocket, is_panic}
use mangos_v.Rep.{
  Rep, shutdown, sender, enqueue, add_endpoint, remove_endpoint, recv_hook, send_hook, set_option,
  init,
}
use mangos_v.Prelude.Bytes.{bytes, get_u32, skip4}

abbrev pub Inv : Rep → Type 0
Inv r = (AllValues IsSound r.eps) × (1 ≤ r.ttl) × (r.ttl ≤ 255)

-- The calls that change a `*rep`, each under its lock.
pub data Call : Type 0 where
  adds removes : ℕ → Call
  sends receives replies : Message → Call
  sets : OptionName → Value → Call
  shuts : Call

-- One call, and whether it panics.
unfoldable pub step : Rep → Call → Rep × Bool
step r (adds id) = (add_endpoint id r, false)
step r (removes id) = ((remove_endpoint id r).0, false)
step r (sends m) = let (r', route) = sender r m in (r', is_panic route)
step r (receives m) = ((recv_hook r m).0, false)
step r (replies m) = ((send_hook r m).0, false)
step r (sets name v) = ((set_option name v r).0, false)
step r shuts = ((shutdown r).0, false)

-- Whether any call of a history panics.
unfoldable pub run : Rep → List Call → Rep × Bool
run r [] = (r, false)
run r (c ∷ cs) = let (r', bad) = step r c in let (r'', worse) = run r' cs in (r'', bad || worse)

enqueue_sound :
    (r : Rep) (id : ℕ) (q : Chan Message) (m : Message)
    → Inv r
    → IsSound q
    → Inv (enqueue r id q m).0 × (is_panic (enqueue r id q m).1 ≡ false)
unfolding enqueue
enqueue_sound r id q m h s = elim (offer-IsSound q m s) [
  | inl e ↦ rw (e, enqueue) (h, refl)
  | inr (q', e, s') ↦
      rw (e, enqueue) ((AllValues-insert IsSound id q' r.eps s' h.0, h.1, h.2), refl)
]

sender_sound :
    (r : Rep) (m : Message) → Inv r → Inv (sender r m).0 × (is_panic (sender r m).1 ≡ false)
unfolding sender
sender_sound r m h =
    let id = get_u32 (bytes m.header) in
    let m' = record m { header = skip4 m.header } in
    elim (Bool-cases (ltb (length (bytes m.header)) 4)) [
      | inl short ↦ rw short (h, refl)
      | inr long ↦ elim (Option-cases (lookup id r.eps)) [
        | inl e ↦ rw (long, e) (h, refl)
        | inr (q, e) ↦
            rw (long, e) (enqueue_sound r id q m' h (AllValues-lookup IsSound id q r.eps h.0 e))
      ]
    ]

set_option-Inv : (name : OptionName) (v : Value) (r : Rep) → Inv r → Inv (set_option name v r).0
unfolding set_option
set_option-Inv OptionName.raw v r h = ground arith
set_option-Inv OptionName.ttl v r h = ground arith
set_option-Inv _ v r h = h

recv_hook-Inv : (r : Rep) (m : Message) → Inv r → Inv (recv_hook r m).0
unfolding recv_hook
recv_hook-Inv r m h = ground arith

send_hook-Inv : (r : Rep) (m : Message) → Inv r → Inv (send_hook r m).0
unfolding send_hook
send_hook-Inv r m h = ground arith

-- Each call keeps the invariant and does not panic.
pub step-Inv : (r : Rep) (c : Call) → Inv r → Inv (step r c).0 × ((step r c).1 ≡ false)
unfolding step
step-Inv r (adds id) h =
    unfold add_endpoint in
    ((AllValues-insert IsSound id (make 2) r.eps (make-IsSound 2) h.0, h.1, h.2), refl)
step-Inv r (removes id) h =
    unfold remove_endpoint in ((AllValues-delete IsSound id r.eps h.0, h.1, h.2), refl)
step-Inv r (sends m) h = sender_sound r m h
step-Inv r (receives m) h = (recv_hook-Inv r m h, refl)
step-Inv r (replies m) h = (send_hook-Inv r m h, refl)
step-Inv r (sets name v) h = (set_option-Inv name v r h, refl)
step-Inv r shuts h = unfold shutdown in ((tt, h.1, h.2), refl)

run-Inv : (r : Rep) (cs : List Call) → Inv r → Inv (run r cs).0 × ((run r cs).1 ≡ false)
unfolding run
run-Inv r [] h = (h, refl)
run-Inv r (c ∷ cs) h =
    let (h', calm) = step-Inv r c h in
    let (h'', calm') = run-Inv (step r c).0 cs h' in (h'', rw (calm, calm'))

-- From a new socket, any history of calls keeps every queue open and within its bound and the hop
-- limit within 1 to 255, and no call of it panics.
pub calls-Inv :
    (sock : ProtocolSocket) (cs : List Call)
    → Inv (run (init sock) cs).0 × ((run (init sock) cs).1 ≡ false)
calls-Inv sock cs = run-Inv (init sock) cs (unfold init in omega arith)
