-- ===== src/Macat/Topics.antt =====
-- macat on a SUB socket: what the receivers of SUB hand up is what the receiving loop prints.
use mangos_v.Prelude.{
  ℕ, ◌≡◌, refl, ap, ◌∙◌, inl, inr, ◌⊎◌, Bool, none, some, List, [], ◌∷◌, ◌++◌, map, All, In, length,
  Bool-cases,
}
use mangos_v.Prelude.Bytes.{Bytes, IsByte}
use mangos_v.Prelude.Strings.{StartsWith}
use mangos_v.Errors.{Error, Result, err, ok}
use mangos_v.Message.{Message}
use mangos_v.Protocol.{Received, deliver, skip, stop, up}
use mangos_v.Core.{
  Got, Operations, RecvCase, Socket, arrives, failed_recv, message, recv_msg, waiting,
}
use mangos_v.Core.Receiving.{recv_msg-first}
use mangos_v.Sub.{Sub, matched, receiver}
use mangos_v.Sub.Subscriptions.{receiver-delivers}
use mangos_v.Macat.Output.{quoted}
use mangos_v.Macat.Output.Streams.{read_all}
use mangos_v.Macat.Output.Quoted.{plain, read_line}
use mangos_v.Macat.Loops.{recv_end, recv_loop, recv_loop-quoted}
use mangos_v.Sub

-- SUB has no hooks, its endpoints are not kept, and `Shutdown` only waits.
abbrev pub sub_operations : Operations Sub
sub_operations = record {
  sock = λ s. s.sock;
  set_option = Sub.set_option;
  get_option = Sub.get_option;
  send_hook = none;
  recv_hook = none;
  add_endpoint = λ id s. s;
  remove_endpoint = λ id s. s;
  shutdown = λ s. s;
}

-- The messages that the receivers put into the socket's queue.
abbrev handed_up : Received → List Message → List Message
handed_up (deliver m) ms = m ∷ ms
handed_up skip ms = ms
handed_up stop ms = ms

abbrev pub heard : Sub → List Message → List Message
heard s [] = []
heard s (m ∷ ms) = handed_up (receiver s up m) (heard s ms)

-- What a loop that calls `RecvMsg` gets, by the cases that fire in each call.
abbrev then_result :
    {S : Type 0} → (Socket S → List (Result Bytes)) → Socket S × Got → List (Result Bytes)
then_result more (s, message m) = ok m.body ∷ more s
then_result more (s, failed_recv e) = err e ∷ more s
then_result more (s, waiting) = []

abbrev pub results_of :
    {S : Type 0} → Operations S → List (List RecvCase) → Socket S → List (Result Bytes)
results_of P [] s = []
results_of P (cs ∷ calls) s = then_result (results_of P calls) (recv_msg P cs s)

-- One call for each message, and then this one.
abbrev pub calls_for : List Message → List RecvCase → List (List RecvCase)
calls_for [] last = last ∷ []
calls_for (m ∷ ms) last = (arrives ∷ []) ∷ calls_for ms last

abbrev bodies_of : List Message → List Bytes
bodies_of [] = []
bodies_of (m ∷ ms) = m.body ∷ bodies_of ms

-- The bodies of the messages that start with one of the subscriptions, in their order.
pub data Picks (subs : List Bytes) : List Message → List Bytes → Type 0 where
  picks_none : Picks subs [] []
  takes :
      {m : Message} {ms : List Message} {bodies : List Bytes} (topic : Bytes)
      → In topic subs
      → StartsWith m.body topic
      → Picks subs ms bodies
      → Picks subs (m ∷ ms) (m.body ∷ bodies)
  leaves :
      {m : Message} {ms : List Message} {bodies : List Bytes}
      → ((topic : Bytes) → In topic subs → StartsWith m.body topic → ⊥)
      → Picks subs ms bodies
      → Picks subs (m ∷ ms) bodies

not_both : {r : Received} {m : Message} → r ≡ skip → r ≡ deliver m → ⊥
not_both a b = cc

receiver-cases : (s : Sub) (m : Message) → (receiver s up m ≡ deliver m) ⊎ (receiver s up m ≡ skip)
unfolding receiver
receiver-cases s m = elim (Bool-cases (matched s.subs m.body)) [
  | inl h ↦ inl (rw h refl)
  | inr h ↦ inr (rw h refl)
]

heard-Picks : (s : Sub) (ms : List Message) → Picks s.subs ms (bodies_of (heard s ms))
heard-Picks s [] = picks_none
heard-Picks s (m ∷ ms) =
    let rest = heard-Picks s ms in
    let (only, also) = receiver-delivers s m in
    elim (receiver-cases s m) [
      | inl delivered ↦
          let (topic, here, start) = only delivered in rw delivered (takes topic here start rest)
      | inr skipped ↦
          rw skipped (
            leaves (λ topic here start. absurd (not_both skipped (also (topic, here, start)))) rest)
    ]

abbrev with_items : Socket Sub → List Message → Socket Sub
with_items s ms = let q = s.urq in record s { urq = record q { items = ms } }

results_of-queued :
    (items : List Message) (cs : List RecvCase) (e : Error) (s : Socket Sub)
    → s.proto.sock.recverr ≡ none
    → s.urq.items ≡ items
    → let q = s.urq in
      let drained : Socket Sub = record s { urq = record q { items = [] } } in
      recv_msg sub_operations cs drained ≡ (drained, failed_recv e)
      → results_of sub_operations (calls_for items cs) s ≡ map ok (bodies_of items) ++ (err e ∷ [])
results_of-queued [] cs e s quiet empty fails =
    ap (λ i. then_result (λ _. []) (recv_msg sub_operations cs (with_items s i))) empty
    ∙ ap (then_result (λ _. [])) fails
results_of-queued (m ∷ items) cs e s quiet queued fails =
    ap (then_result (results_of sub_operations (calls_for items cs)))
      (recv_msg-first sub_operations s [] m m items s.proto quiet queued tt refl)
    ∙ ap (◌∷◌ (ok m.body)) (results_of-queued items cs e (with_items s items) quiet refl fails)

heard-IsByte :
    (s : Sub) (ms : List Message)
    → All (λ m. All IsByte m.body) ms
    → All (All IsByte) (bodies_of (heard s ms))
heard-IsByte s [] h = tt
heard-IsByte s (m ∷ ms) h = elim (receiver-cases s m) [
  | inl delivered ↦ rw delivered (h.0, heard-IsByte s ms h.1)
  | inr skipped ↦ rw skipped (heard-IsByte s ms h.1)
]

-- Messages come to a SUB socket while its receive queue is ready, and macat's receiving loop, in the format "quoted", calls
-- `RecvMsg` for each that is queued and then once more, which fails: what it writes can be read
-- back as the bodies of exactly the messages that start with one of the subscriptions, in the order in which they
-- came; it sends nothing, and ends as the error says.
pub recv_loop-topics :
    (is_print : ℕ → Bool) (s : Socket Sub) (ms : List Message) (cs : List RecvCase) (e : Error)
    → s.proto.sock.recverr ≡ none
    → All (λ m. All IsByte m.body) ms
    → let q = s.urq in
      let queued : Socket Sub = record s { urq = record q { items = heard s.proto ms } } in
      let drained : Socket Sub = record s { urq = record q { items = [] } } in
      recv_msg sub_operations cs drained ≡ (drained, failed_recv e)
      → let calls = calls_for (heard s.proto ms) cs in
        let r = recv_loop is_print quoted (results_of sub_operations calls queued) in
        (bodies : List Bytes) × Picks s.proto.subs ms bodies
        × (read_all (read_line plain) (length bodies) r.written ≡ some bodies)
        × (r.sent ≡ [])
        × (r.ended ≡ recv_end e)
recv_loop-topics is_print s ms cs e quiet bytes fails =
    let items = heard s.proto ms in
    let bodies = bodies_of items in
    let (written, sent, ended) =
      recv_loop-quoted is_print bodies e [] (heard-IsByte s.proto ms bytes) in
    let same = results_of-queued items cs e (with_items s items) quiet refl fails in
    (bodies, heard-Picks s.proto ms, rw same written, rw same sent, rw same ended)
