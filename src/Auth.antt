-- ===== src/Auth.antt =====
-- src/auth/: who is asking.
pub mod Passwords
pub mod Session
