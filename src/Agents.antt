-- ===== src/Agents.antt =====
-- The security agents of the server (apps/server/src/agents), one module each.
pub mod LinkGuard
pub mod SessionProtector
pub mod ThreatIntelligence
pub mod AnomalyDetector
pub mod ContentIntegrity
pub mod CryptoWatchdog
pub mod Regularity
pub mod PhantomGuard
pub mod BehaviorAnalyzer
pub mod Registry
