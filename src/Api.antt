-- ===== src/Api.antt =====
-- cmd/api: what stands in front of the handlers of the HTTP server.
pub mod RateLimit
pub mod Examples
