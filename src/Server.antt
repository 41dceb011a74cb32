-- ===== src/Server.antt =====
-- The server as a whole (apps/server/src): the connections that it starts with, what it says of its
-- health, and what an error tells a client.
pub mod Startup
pub mod Health
