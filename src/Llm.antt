-- ===== src/Llm.antt =====
-- apps/api/app/llm.py: the client of the model's provider. What the SDK gives is an argument.
pub mod Embeddings
pub mod Errors
pub mod Stream
mod Tests
