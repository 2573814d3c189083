-- ===== src/Auth.antt =====
-- auth/: the check of a request's token.
pub mod Base64
pub mod Jwt
pub mod Middleware
