-- ===== src/Routes/Chat/Tests.antt =====
-- The theorems on apps/api/app/routes/chat.py at small inputs.
use triage_assistant.Prelude.{ℕ, refl, ◌+++◌}
use triage_assistant.Prelude.Numbers.{decimal}
use triage_assistant.Samples.{member, context}
use triage_assistant.Access.Roles.{team_ids}
use triage_assistant.Switch.{current}
use triage_assistant.Runbooks.Search.Samples.{
  two_sections, every_word-GivesRows, two_sections-Keyed, searcher,
}
use triage_assistant.Routes.Chat.{Service, retrieve, chat_stream}
use triage_assistant.Routes.Chat.Recorded.{Given, asker_alerts, chat_stream-Given}

abbrev service : Service ℕ
service = record {
  searcher = searcher;
  minute = decimal;
  date = decimal;
  slug_of = λ id. "payments";
  template = λ alerts runbooks. alerts +++ runbooks;
  prompt_ref = "triage v6";
  agent_prompt_ref = "triage-agent v2";
  model = "m";
}

chat_stream-Given_example :
    Given service member "why?" two_sections
      (asker_alerts service member two_sections)
      (retrieve service member "why?" two_sections 0).0
      (chat_stream service (context 9) member "why?" two_sections 0).0
unfolding current team_ids
chat_stream-Given_example =
    chat_stream-Given service (context 9) member "why?" two_sections refl refl
      ((refl, (refl, tt)), ((refl, tt), (tt, tt))) (refl, tt) every_word-GivesRows
      two_sections-Keyed (refl, tt) 0
