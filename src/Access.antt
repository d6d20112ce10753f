-- ===== src/Access.antt =====
-- apps/api/app/access.py: who may do what.
pub mod Group
pub mod Claims
pub mod Roles
mod Tests
