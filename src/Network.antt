-- ===== src/Network.antt =====
-- The messages on the wire (network/): the envelope of the TCP transport, and the two transports.
pub mod Envelope
pub mod Rpc
pub mod TcpTransport
pub mod LocalTransport
mod Tests
