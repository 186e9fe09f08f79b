-- ===== src/Facade/Api.antt =====
-- The calls of internal/facade/api_lrpc.go and their registration in internal/facade/service.go.
pub mod Caller
pub mod Targets
pub mod Bookmarks
pub mod Requests
pub mod Results
pub mod Calls
