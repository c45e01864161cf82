-- ===== src/Auth.antt =====
-- AUTH and ACL: src/auth_handler.c. SHA-256 is OpenSSL's, and a parameter.
pub mod Commands
pub mod Login
