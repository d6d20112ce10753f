-- ===== src/Sessions.antt =====
-- apps/api/app/sessions.py
pub mod Login
pub mod Active
pub mod SignIn
pub mod Cookies
pub mod Origin
pub mod Request
mod Tests
