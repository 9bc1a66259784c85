-- ===== src/Common.antt =====
-- crates/common: the error model, pagination and input validation that the services share.
pub mod Error
pub mod Pagination
pub mod Validate
