-- ===== src/Tunnel.antt =====
-- internal/tunnel/relay.go and internal/tunnel/tunnel.go: the two ends of the tunnel. TLS, the
-- listeners and the dialling are outside; a connection is what its peer sends and what it accepts.
mod Tests
mod Cases
pub mod Relay
pub mod Client
pub mod Handshake
pub mod Slot
pub mod Serving
pub mod Admission
pub mod Single
pub mod Dial
pub mod Publish
pub mod Alpn
pub mod Backoff
