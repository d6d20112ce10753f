-- ===== src/Runbooks.antt =====
-- apps/api/app/runbooks.py
pub mod Asked
pub mod Embed
pub mod Markdown
pub mod Save
pub mod Search
pub mod Sections
mod Tests
