-- ===== src/Req/Calls.antt =====
-- The calls on a cooked REQ socket in any order: which replies are accepted, and what `Recv` reports.
use mangos_v.Prelude.{
  ℕ, ◌≡◌, ◌⊎◌, inl, inr, true, false, none, some, List, [], ◌∷◌, ◌++◌, arith, if◌then◌else◌,
}
use mangos_v.Req.{Req, fire, next_id, recv_hook, refire, send_hook}
use mangos_v.Message.{Message}
use mangos_v.Prelude.Bytes.{bytes, get_u32}

-- `SendHook` and `RecvHook` on a message, and the two halves of the resender's turn.
pub data Call : Type 0 where
  sends receives : Message → Call
  fires refires : Call

unfoldable pub step : Req → Call → Req
step r (sends m) = (send_hook r m).0
step r (receives m) = (recv_hook r m).0
step r fires = (fire r).0
step r refires = refire r

-- The identifiers of the requests that a history sends.
unfoldable pub requests : Req → List Call → List ℕ
requests r [] = []
requests r (c ∷ cs) =
    let rest = requests (step r c) cs in elim c [ sends m ↦ (next_id r).0 ∷ rest | _ ↦ rest ]

-- The identifiers of the replies that a history hands to the application.
unfoldable pub replies : Req → List Call → List ℕ
replies r [] = []
replies r (c ∷ cs) =
    let rest = replies (step r c) cs in
    elim c [
      | receives m ↦ if (recv_hook r m).2 then get_u32 (bytes m.header) ∷ rest else rest
      | _ ↦ rest
    ]

-- `IsWithin xs ys`: `xs` arises from `ys` by leaving out elements.
pub data IsWithin : List ℕ → List ℕ → Type 0 where
  none_left : IsWithin [] []
  leave : {x : ℕ} {xs ys : List ℕ} → IsWithin xs ys → IsWithin xs (x ∷ ys)
  keep : {x : ℕ} {xs ys : List ℕ} → IsWithin xs ys → IsWithin (x ∷ xs) (x ∷ ys)

-- The outstanding request.
abbrev pub pending : Req → List ℕ
pending r = elim r.reqmsg [ none ↦ [] | some m ↦ r.reqid ∷ [] ]

leave_all : (xs ys zs : List ℕ) → IsWithin xs zs → IsWithin xs (ys ++ zs)
leave_all xs [] zs h = h
leave_all xs (y ∷ ys) zs h = leave (leave_all xs ys zs h)

step_cooked : (r : Req) (c : Call) → r.raw ≡ false → (step r c).raw ≡ false
unfolding step send_hook recv_hook fire refire next_id
step_cooked r (sends m) h = ground arith
step_cooked r (receives m) h = ground arith
step_cooked r fires h = h
step_cooked r refires h = h

pending-sends :
    (r : Req) (m : Message) → r.raw ≡ false → pending (step r (sends m)) ≡ (next_id r).0 ∷ []
unfolding step send_hook next_id
pending-sends r m h = rw h

-- A reply is accepted only if it answers the outstanding request, which it then ends.
recv_hook-cases :
    (r : Req) (m : Message)
    → r.raw ≡ false
    → (((recv_hook r m).2 ≡ true)
        × (pending r ≡ get_u32 (bytes m.header) ∷ [])
        × (pending (recv_hook r m).0 ≡ []))
      ⊎ (((recv_hook r m).2 ≡ false) × ((recv_hook r m).0 ≡ r))
unfolding recv_hook
recv_hook-cases r m h = ground arith

-- In any history of a cooked socket (requests sent, messages received, timer events), the
-- identifiers of the replies that reach the application are those of the outstanding request and of
-- the requests sent, in that order, some left out and none twice.
pub replies-IsWithin :
    (r : Req) (cs : List Call)
    → r.raw ≡ false
    → IsWithin (replies r cs) (pending r ++ requests r cs)
unfolding replies requests step fire refire
replies-IsWithin r [] h = leave_all [] (pending r) [] none_left
replies-IsWithin r (sends m ∷ cs) h = leave_all _ (pending r) _ (
    rw (pending-sends r m h) at
      (replies-IsWithin (step r (sends m)) cs (step_cooked r (sends m) h)))
replies-IsWithin r (receives m ∷ cs) h =
    let ih = replies-IsWithin (recv_hook r m).0 cs (step_cooked r (receives m) h) in
    elim (recv_hook-cases r m h) [
      | inl (e, p, p') ↦ rw (e, p) (keep (rw p' at ih))
      | inr (e, same) ↦ rw (e, same) (rw same at ih)
    ]
replies-IsWithin r (fires ∷ cs) h = replies-IsWithin (step r fires) cs h
replies-IsWithin r (refires ∷ cs) h = replies-IsWithin (step r refires) cs h
