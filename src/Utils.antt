-- ===== src/Utils.antt =====
-- apps/server/src/utils: the counters of security events and of errors.
pub mod SecurityMonitor
pub mod ErrorTracker
