-- ===== src/Premium.antt =====
-- apps/server/src/premium and routes/premium.ts: the tiers, who has which, and what a tier unlocks.
pub mod Tiers
pub mod Access
pub mod Routes
pub mod Additive
pub mod Activation
mod Tests
