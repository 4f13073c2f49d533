-- ===== src/Lib.antt =====
-- mangos: the scalability protocols of nanomsg in Go. A socket (core.go) couples a protocol with
-- pipes to other sockets. A protocol (protocol/*) has a receiver for each pipe, which hands
-- messages up to the socket, a sender, which routes the messages of the socket's send queue to its
-- pipes, and hooks, which the socket calls on each message that the application sends or receives.
--
-- How the code is modelled. A protocol is a record of its fields, with the part of the socket that
-- it writes (`ProtocolSocket`); its methods return the new record. What runs under the protocol's
-- lock is one step; a goroutine is one turn of its loop, and the case of a `select` that fires is
-- an argument. A map is an association list, a channel is its capacity, its items and whether it is
-- closed, and a send on a closed channel is a panic, as a value. A timer is the duration that it is
-- armed for. A word of w bits wraps at 2 ^ w. A type assertion that fails yields the zero value,
-- which the code stores.
--
-- - Prelude: shared names; lists, Boolean tests, integers, byte slices with nil apart from empty
--   (Bytes), byte strings (Strings), maps (Table).
--
-- - Errors, Options, Message, Waiter, Protocol: errors.go, options.go, message.go (with the cache
--   of message buffers), waiter.go, protocol.go. Chan: Go's channels.
--
-- - Backtrace: the loop of protocol/rep/rep.go and protocol/respondent/respondent.go that moves the
--   return path of a message from its body to its header. It stops for lack of hops or of bytes, so
--   the number of hops left is the recursion's argument, and no other fuel is needed.
--
-- - Req, Rep: protocol/req/req.go and protocol/rep/rep.go. Route: devices (device.go) between them,
--   with requests going out and replies coming home.
--
-- - Fan: the loop that offers one message to all peers; Pub, Bus, Star: protocol/pub/pub.go,
--   protocol/bus/bus.go, protocol/star/star.go. Sub: protocol/sub/sub.go.
--
-- - Surveyor, Respondent: protocol/surveyor/surveyor.go and protocol/respondent/respondent.go.
--
-- - Pair, Push, Pull: protocol/pair/pair.go, protocol/push/push.go, protocol/pull/pull.go. Peers:
--   the protocol numbers and ValidPeers of protocol.go.
--
-- - Pipe: the identifiers of pipes (pipe.go). The loop of newPipe takes its number of turns; two
--   more than there are open pipes are enough.
--
-- - Conn: connections as streams of bytes: the framing of messages and the handshake (conn.go), and
--   the framing of IPC (connipc_posix.go).
--
-- - Core: the socket (core.go), over any protocol given by the record `Operations`: sending,
--   receiving and options; a call that meets no ready case waits. Core.Pipes: pipes that come and
--   go (addPipe, remPipe and Close, and Close in pipe.go), in the steps of the code: addPipe before
--   and after its unlock; Close of the socket under its lock, at the protocol's shutdown, and at
--   each pipe that it closes; Close of a pipe at its guard, at RemoveEndpoint, under the socket's
--   lock, and at the return of its identifier. Events.step takes them in any order, those of
--   several goroutines. A port hook is the answer that it gives. The laws on a protocol's endpoints
--   are the record `Endpoints`, which REQ and REP fill (Core.Pipes.Instances).
--
-- - Core.Addresses: how an address finds its transport, and how a socket dials and listens
--   (core.go), over any transports given by the record `Transport`. Tcp: one of them
--   (transport/tcp/tcp.go), over the calls of Go's package net, the record `Net`.
--
-- - Device: how device.go makes a device of two sockets or of one.
--
-- - Redial: the dialers of core.go, and the waits between their dials.
--
-- - Inproc: the transport between sockets of one process (transport/inproc/inproc.go). Its lock is
--   a field, so that a call that leaves it held is seen.
--
-- - Tests: concrete inputs.
--
-- - Ws: the WebSocket transport (transport/ws/ws.go): its options, and its listener under the
--   requests of the HTTP server and the calls of the socket. Its pipes are numbers.
--
-- - Compat: the layer of the older bindings (compat/compat.go) over a socket of Core, with the type
--   of each option's value, since a wrong one panics.
--
-- - Macat: the command line tool (macat/macat.go): Settings has what the options of the command
--   line do, Plan the calls of main on its socket, Loops the loops over the results of their calls,
--   and Output what is printed. Topics joins the receiving loop to SUB and the socket.
--
-- - Tls, Ipc: the transports over TLS (transport/tlstcp/tlstcp.go), UNIX sockets and named pipes
--   (transport/ipc/ipc_unix.go, transport/ipc/ipc_windows.go), over records of the calls of the
--   network, of the TLS library and of winio.
--
-- - Drain: the wait of util.go for a queue to empty, over what it reads of the queue and of the
--   clock.
--
-- Not modelled: the programs that measure and the examples; the operating system and the network,
-- TLS and WebSocket libraries, whose calls come as parameters or as results; the wall clock, the
-- goroutine scheduler, and the timed waits of a shutdown. The drains that a Close of the socket
-- waits for leave the queue as the senders do.
pub mod Backtrace
pub mod Bus
pub mod Chan
pub mod Compat
pub mod Conn
pub mod Core
pub mod Device
pub mod Drain
pub mod Errors
pub mod Fan
pub mod Inproc
pub mod Ipc
pub mod Macat
pub mod Message
pub mod Options
pub mod Pair
pub mod Peers
pub mod Pipe
pub mod Prelude
pub mod Protocol
pub mod Pub
pub mod Pull
pub mod Push
pub mod Redial
pub mod Rep
pub mod Req
pub mod Respondent
pub mod Route
pub mod Star
pub mod Sub
pub mod Surveyor
pub mod Tcp
mod Tests
pub mod Tls
pub mod Waiter
pub mod Ws
