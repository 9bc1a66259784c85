-- ===== src/Auth.antt =====
-- crates/auth-sdk: token claims, their verification, request extraction, the bot guard and the
-- tokens between services.
pub mod Claims
pub mod Access
pub mod Jwt
pub mod Jwks
pub mod ServiceToken
