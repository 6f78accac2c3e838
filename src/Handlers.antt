-- ===== src/Handlers.antt =====
-- The example handlers: example/handlers/.
pub mod SetUp
pub mod Shutdown
pub mod Incoming
pub mod Upper
pub mod Null
pub mod Fifo
pub mod Sessions
pub mod Handshake
pub mod Variable
pub mod HandshakeCpp
pub mod Books
