-- ===== src/Triage.antt =====
-- apps/api/app/triage.py: what the model reads, and how its stream becomes the events of an answer.
mod Tests
pub mod Hits
pub mod Citations
pub mod Prompt
pub mod Events
pub mod Wire
