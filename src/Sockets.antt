-- ===== src/Sockets.antt =====
-- apps/server/src/socket: the handlers of Socket.IO events.
pub mod Events
pub mod Send
pub mod Status
pub mod Rooms
pub mod Presence
pub mod Sample
