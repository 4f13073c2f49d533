-- ===== src/Compat/RawReplies.antt =====
-- Replies on a raw compat socket of REP.
use mangos_v.Prelude.{ℕ, suc, ◌≡◌, refl, ap, true, false, none, [], ◌∷◌, ◌++◌, length}
use mangos_v.Prelude.Bytes.{Bytes, slice}
use mangos_v.Prelude.Int.{pos}
use mangos_v.Chan.{has_room}
use mangos_v.Message.{Message}
use mangos_v.Protocol.{dropped}
use mangos_v.Rep.{Rep}
use mangos_v.Rep.Reply.{send_hook_raw}
use mangos_v.Core.{Socket, queues}
use mangos_v.Core.Pipes.Instances.{rep_operations}
use mangos_v.Core.Sending.{outgoing, send_msg_room}
use mangos_v.Compat.{Compat, holding, send, set_send_timeout, written}
use mangos_v.Compat.Timeouts.{LeavesDeadlines, send-send_msg}
use mangos_v.Rep

pub rep-LeavesDeadlines : LeavesDeadlines rep_operations
unfolding Rep.set_option
rep-LeavesDeadlines = record { leaves_recv = λ v p. refl; leaves_send = λ v p. refl }

headless-dropped : (r : Rep) (m : Message) → m.header ≡ slice [] → Rep.sender r m ≡ (r, dropped)
unfolding Rep.sender
headless-dropped r m e = rw e refl

outgoing-header :
    (now : ℕ) (blank : Message) (b : Bytes) (s : Socket Rep)
    → s.proto.raw ≡ true
    → (outgoing rep_operations now (holding rep_operations blank b) s).header ≡ slice []
outgoing-header now blank b s is_raw =
    ap (λ x. x.1.header) (send_hook_raw s.proto (holding rep_operations blank b) is_raw)

outgoing-body :
    (now : ℕ) (blank : Message) (b : Bytes) (s : Socket Rep)
    → s.proto.raw ≡ true
    → (outgoing rep_operations now (holding rep_operations blank b) s).body ≡ b
outgoing-body now blank b s is_raw =
    ap (λ x. x.1.body) (send_hook_raw s.proto (holding rep_operations blank b) is_raw)

-- On a raw REP socket of the compat layer, with a positive send timeout, no error to report and room in its
-- open send queue: `Send` without flags reports that all its bytes are sent, but the message that it queues
-- has them all in its body and an empty header, and no REP socket finds a peer for it: the sender drops it, whatever the bytes
-- are and whatever peers there are.
pub raw_reply-dropped :
    (now k : ℕ) (blank : Message) (b : Bytes) (c : Compat Rep)
    → c.sock.proto.raw ≡ true
    → c.sock.proto.sock.senderr ≡ none
    → c.sock.uwq.is_closed ≡ false
    → has_room c.sock.uwq ≡ true
    → let x = send rep_operations now queues blank b (pos 0) (set_send_timeout (pos (suc k)) c) in
      (x.1 ≡ written (length b) none)
      × ((m : Message) × (x.0.sock.uwq.items ≡ c.sock.uwq.items ++ (m ∷ []))
          × (m.body ≡ b)
          × (m.header ≡ slice [])
          × ((r : Rep) → Rep.sender r m ≡ (r, dropped)))
raw_reply-dropped now k blank b c is_raw fine unclosed room =
    let s : Socket Rep = (record c.sock { wdeadline = pos (suc k) }) in
    let m = holding rep_operations blank b in
    let out = outgoing rep_operations now m s in
    let passed = ap (λ x. x.2) (send_hook_raw s.proto m is_raw) in
    rw
      (
        send-send_msg rep_operations rep-LeavesDeadlines now k queues blank b c,
        send_msg_room rep_operations now m s fine passed unclosed room,
      )
      (
        refl,
        (
          out,
          refl,
          outgoing-body now blank b s is_raw,
          outgoing-header now blank b s is_raw,
          λ r. headless-dropped r out (outgoing-header now blank b s is_raw),
        ),
      )
