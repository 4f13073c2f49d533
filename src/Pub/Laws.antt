-- ===== src/Pub/Laws.antt =====
-- What publishing does.
use mangos_v.Prelude.{◌+◌, ◌^◌, ◌<◌, ◌≡◌, refl, ap, false, arith, length}
use mangos_v.Pub.{Pub, sender}
use mangos_v.Message.{Counted, release}
use mangos_v.Prelude.Table.{AllValues}
use mangos_v.Chan.{IsSound}
use mangos_v.Fan.{everybody}
use mangos_v.Fan.Laws.{fan_out-serves, held, serve_all, held-serve_all}

-- While the peers' queues are open and within their bounds, and the message is live with a count
-- that cannot overflow: publishing does not panic, appends the message to the queue of every peer
-- that has room and leaves the full ones as they are, gives up the sender's reference and leaves
-- one more for each queue that took it, and keeps the queues open and within their bounds.
pub sender-publishes :
    (p : Pub) (m : Counted)
    → AllValues IsSound p.eps
    → 0 < m.refcnt
    → m.refcnt + length p.eps < 2 ^ 31
    → let (p', m', bad) = sender p m in
      (bad ≡ false)
      × (p'.eps ≡ serve_all everybody m.msg p.eps)
      × (m'.refcnt + 1 + held p.eps ≡ m.refcnt + held p'.eps)
      × (AllValues IsSound p'.eps)
unfolding sender release
sender-publishes p m sound live small =
    let (calm, all, count, sound', same) = fan_out-serves everybody m p.eps sound (omega arith) in
    rw calm (refl, all, omega (arith, held-serve_all everybody m.msg p.eps, ap held all), sound')
