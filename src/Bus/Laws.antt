-- ===== src/Bus/Laws.antt =====
-- Where BUS messages go.
use mangos_v.Prelude.{ℕ, ◌+◌, ◌^◌, ◌<◌, ◌≡◌, ap, Bool, false, ◌++◌, arith, ◌==◌, ==_refl, length}
use mangos_v.Bus.{Bus, sender, origin}
use mangos_v.Message.{Message, Counted, release}
use mangos_v.Prelude.Table.{AllValues, lookup}
use mangos_v.Prelude.Bytes.{Bytes, put_u32, slice, skip4, drop-put_u32, get-put_u32, not-short}
use mangos_v.Chan.{IsSound}
use mangos_v.Fan.Laws.{
  served_at, fan_out-serves, lookup-serve_all, served_at_over, held, held-serve_all,
}

origin_word :
    (m : Message) (id : ℕ) (rest : Bytes)
    → id < 2 ^ 32
    → m.header ≡ slice (put_u32 id ++ rest)
    → origin m ≡ (id, record m { header = slice rest })
unfolding origin skip4
origin_word m id rest small e =
    rw e (ground (arith, get-put_u32 id rest, not-short id rest, drop-put_u32 id rest))

-- A live message whose header starts with the word of the pipe `id`, with a count that cannot
-- overflow, and queues that are open and within their bounds: sending does not panic, appends the
-- message without that word to the queue of every peer that has room but `id`, whose queue stays as
-- it is, gives up the sender's reference and leaves one more for each queue that took it.
pub sender-forwards :
    (x : Bus) (id : ℕ) (m : Counted) (rest : Bytes)
    → id < 2 ^ 32
    → m.msg.header ≡ slice (put_u32 id ++ rest)
    → AllValues IsSound x.peers
    → 0 < m.refcnt
    → m.refcnt + length x.peers < 2 ^ 31
    → let (x', m', bad) = sender x m in
      let out : Message = let g = m.msg in record g { header = slice rest } in
      (bad ≡ false)
      × ((j : ℕ) → lookup j x'.peers ≡ served_at (λ k. id == k) out j (lookup j x.peers))
      × (lookup id x'.peers ≡ lookup id x.peers)
      × (m'.refcnt + 1 + held x.peers ≡ m.refcnt + held x'.peers)
unfolding sender release
sender-forwards x id m rest small e sound live few =
    let out : Message = let g = m.msg in record g { header = slice rest } in
    let p : ℕ → Bool = λ k. id == k in
    let (calm, all, count, sound', same) =
      fan_out-serves p (record m { msg = out }) x.peers sound (omega arith) in
    rw (origin_word m.msg id rest small e) (
      calm,
      λ j. rw (all) (lookup-serve_all p out j x.peers),
      rw (all, lookup-serve_all p out id x.peers)
          (served_at_over p out id (lookup id x.peers) (==_refl id)),
      rw calm (omega (arith, held-serve_all p out x.peers, ap held all)),
    )
