-- ===== src/Websocket.antt =====
-- src/websocket.c: the websocket handshake, frames to one client, and to every client.
pub mod Send
pub mod Wire
pub mod Handshake
pub mod Accept
pub mod Checks
pub mod Broadcast
