-- ===== src/Tests.antt =====
-- The theorems at concrete inputs, and runs of the definitions.
mod RequestReply
mod Multicast
mod SurveyTests
mod SocketTests
mod CoreTests
mod TransportTests
mod DeviceTests
mod TcpTests
mod MacatTests
mod CompatTests
mod WsTests
mod NetworkTests
mod AskingTests
