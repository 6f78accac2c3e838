-- ===== src/Handler.antt =====
-- src/handler.c and src/handler.h: requests from Mongrel2, and replies to it.
pub mod Request
pub mod Netstring
pub mod Front
pub mod Parse
pub mod Cut
pub mod Garbage
pub mod Reply
pub mod Headers
pub mod Socket
pub mod Life
