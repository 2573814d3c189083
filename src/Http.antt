-- ===== src/Http.antt =====
-- network/: HTTP requests and their parser.
pub mod Request
pub mod Response
pub mod Server
pub mod Url
pub mod Parser
