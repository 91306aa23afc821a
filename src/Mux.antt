-- ===== src/Mux.antt =====
-- internal/tunnel/mux.go, the multiplexer: `Conn` and `Stream`.
mod Tests
pub mod Pipe
pub mod Conn
pub mod Stream
pub mod ReadLoop
pub mod Fifo
pub mod Chunks
pub mod Write
pub mod Line
pub mod Transport
pub mod Delivery
pub mod Drain
pub mod Valid
pub mod Step
pub mod Reach
pub mod Closed
