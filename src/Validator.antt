-- ===== src/Validator.antt =====
-- internal/validator: the vectors of a query, and the checks on them. The functions of the package
-- `just` and the grammar of PostgreSQL are parameters.
pub mod Schema
pub mod Vecs
pub mod Checks
pub mod Samples
mod Tests
