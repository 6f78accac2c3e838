-- ===== src/Framing.antt =====
-- src/websocket_framing.c: the definitions, and in the later modules what is proved of them.
pub mod Flags
pub mod Length
pub mod Payload
pub mod Mask
pub mod Create
pub mod Layout
pub mod Fresh
pub mod Xor
pub mod Fields
pub mod RoundTrip
pub mod Truncated
pub mod Network
pub mod Checks
pub mod Debug
