-- ===== src/Smtp.antt =====
-- internal/smtpserver: the session of one connection, which the SMTP library drives, and the LOGIN
-- mechanism.
pub mod Session
pub mod Login
pub mod Trace
mod Tests
