-- ===== src/Auth.antt =====
-- apps/api/src/auth: the sign-in by one-time codes.
pub mod Otp
pub mod Sessions
