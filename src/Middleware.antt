-- ===== src/Middleware.antt =====
-- apps/server/src/middleware and the edge middleware of apps/web: limits on the rate of requests.
pub mod SocketLimiter
pub mod InputGuard
pub mod Guards
