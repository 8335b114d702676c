-- ===== src/Api.antt =====
-- frontend/src/lib/api.ts: the calls of the server.
pub mod Options
pub mod Request
pub mod InFlight
pub mod Action
