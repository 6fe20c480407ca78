-- ===== src/Gateway.antt =====
-- The gateway: the limiter of requests, the proxies to the services, and the routes.
pub mod RateLimit
pub mod Proxy
pub mod Server
pub mod Sent
pub mod Upstream
