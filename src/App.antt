-- ===== src/App.antt =====
-- internal/app: the service, and the structs of internal/structs that it works with.
pub mod Users
pub mod Oidc
pub mod Targets
pub mod Values
pub mod Effects
pub mod Queries
pub mod Stored
pub mod Requests
pub mod Samples
mod Tests
