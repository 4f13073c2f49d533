-- ===== src/Protocol.antt =====
-- protocol.go: protocol numbers, names and peers, and what a protocol sees of its socket.
use mangos_v.Prelude.{ℕ, Bool, true, false, Option}
use mangos_v.Errors.{Error}
use mangos_v.Message.{Message}

-- The part of the socket that a protocol writes: `SetRecvError` and `SetSendError`.
pub record ProtocolSocket : Type 0 where
  pub recverr : Option Error
  pub senderr : Option Error

unfoldable pub set_recv_error : Option Error → ProtocolSocket → ProtocolSocket
set_recv_error e s = record s { recverr = e }

unfoldable pub set_send_error : Option Error → ProtocolSocket → ProtocolSocket
set_send_error e s = record s { senderr = e }

-- What one turn of a receiver's loop does with the message that it got from its endpoint.
pub data Received : Type 0 where
  -- `rq <- m`.
  deliver : Message → Received
  -- The message is freed, and the loop goes on.
  skip : Received
  -- The goroutine returns.
  stop : Received

-- Which case of the receiver's `select` fires: `rq <- m`, `<-cq`, or the `default` that some have.
pub data Ready : Type 0 where
  up closing no_room : Ready

-- What becomes of a message that a sender takes from the socket's send queue.
pub data Routed : Type 0 where
  -- It is queued for the endpoint of that identifier.
  queued : ℕ → Message → Routed
  dropped : Routed
  -- A send on a closed channel.
  panicked : Routed

abbrev pub is_panic : Routed → Bool
is_panic panicked = true
is_panic _ = false
