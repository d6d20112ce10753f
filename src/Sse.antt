-- ===== src/Sse.antt =====
-- apps/api/app/sse.py: how events are written on a stream. Closing the generator is asyncio's.
mod Tests
pub mod Frames
use triage_assistant.Prelude.{String, ◌+++◌}
use triage_assistant.Json.{Json, dumps}

abbrev pub keep_alive : String
keep_alive = ": keep-alive\n\n"

unfoldable pub sse : String → Json → String
unfolding dumps
sse event payload = "event: " +++ event +++ "\ndata: " +++ dumps payload +++ "\n\n"
