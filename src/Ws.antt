-- ===== src/Ws.antt =====
-- src/routes/ws.rs: a client's connection.
pub mod Keys
pub mod Messages
pub mod RateLimiter
pub mod Session
pub mod Upgrade
pub mod Turns
pub mod Hall
pub mod Auth
pub mod Handshake
pub mod Connection
