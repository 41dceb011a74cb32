-- ===== src/Client.antt =====
-- apps/web/src/lib: what the browser keeps.
pub mod ChatStore
pub mod Socket
