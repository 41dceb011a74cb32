-- ===== src/Routes.antt =====
-- The routes of the REST server (apps/server/src/routes) that read and write conversations, messages
-- and attachments, and those that show the state of the agents and of the services.
pub mod Security
pub mod Paging
mod Sample
pub mod Messages
pub mod Conversations
pub mod Attachments
