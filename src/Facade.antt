-- ===== src/Facade.antt =====
-- internal/facade: the calls of api_lrpc.go and the handlers of service.go.
pub mod Export
mod Samples
pub mod Sessions
pub mod Api
