-- ===== src/Lib.antt =====
-- The triage assistant: people of an operations team sign in, see the alerts of their teams, keep
-- runbooks, and ask a language model about both. This library models the Python service under
-- apps/api/app and proves what its parts promise. Each file names the code that it is about.
--
-- The parts, and how they meet:
-- * Prelude (with Tests, Lists, Members, Maps, Texts and Numbers) holds what the parts share: tests on native
--   numbers, comprehensions as `keep`, `find` and `any`, dictionaries with text keys, texts, decimal
--   numbers. Http has what a handler answers instead of a result, after HTTPException and
--   apps/api/app/errors.py. Settings (Production, Load) is
--   apps/api/app/config.py: the fields that are read, how they load, and what production refuses.
-- * Models has the tables of apps/api/app/models.py: a database is a record of lists of rows, and an
--   operation takes it and returns the one that it commits.
-- * Access (Group, Claims, Roles) is apps/api/app/access.py: group names, the roles that a groups
--   claim grants, and who may do what. Every handler asks it.
-- * Queries (Order, Sorted, Merge, Cursor) is apps/api/app/queries.py: the one read of alerts that
--   the list, the chat and the tools share.
-- * Audit is apps/api/app/audit.py: `record_event` stands in the same step as the change; Routes.Trail
--   is the route that reads them.
-- * Sessions (Login, SignIn, Active, Cookies, Origin, Request) is apps/api/app/sessions.py: sign-ins
--   in progress, what a sign-in writes, open sessions, and `current_principal`, which every
--   authenticated route starts with.
-- * Ratelimit is apps/api/app/ratelimit.py, over a Redis server that is a record of operations and
--   laws, and that may lose a counter, as it expires or is evicted. Switch is apps/api/app/switch.py. Privacy is apps/api/app/privacy.py.
-- * Redact (Steps, Replaced) is apps/api/app/redact.py, over the matches that its patterns find.
-- * Errors and Middleware are apps/api/app/errors.py and middleware.py, round every request. Json and
--   Sse are the framing of events in apps/api/app/sse.py.
-- * Triage (Hits, Prompt, Citations, Events, Wire) is apps/api/app/triage.py: what the model reads, the
--   events of an answer and its citations. Agent is the loop of apps/api/app/agent.py, over a model
--   and tools that are functions on a state of their own. Tools is apps/api/app/tools.py, and its
--   Looped the agent with these tools.
-- * Runbooks (Markdown, Sections, Embed, Save, Search, Asked) is apps/api/app/runbooks.py: the sections of a
--   document, how it is stored with their vectors, while others may commit, and how it is found.
--   Asked is the search that the chat and the tools make for whoever asks.
-- * Llm (Errors, Stream, Embeddings) is apps/api/app/llm.py: the parts of a turn from the provider's
--   chunks, which the agent reads, and the embeddings, with which runbooks are stored.
-- * Oidc (Provider) is apps/api/app/oidc.py: the caches of the identity provider's metadata and keys,
--   what an ID token must pass, and what is sent to the provider.
-- * Routes (Alerts, Auth, Assistant, Chat, Runbooks, Trail) has the handlers of alerts.py, auth.py,
--   assistant.py, chat.py, runbooks.py and audit.py under apps/api/app/routes, which compose the parts
--   above.
-- Samples, Runbooks.Search.Samples and the modules named Tests hold small inputs, runs on them, and the theorems at them.
--
-- How the state is read. SQL is read as what it says of rows: WHERE as `keep`, ORDER BY as an
-- insertion sort by the same order, LIMIT as `take`, ON CONFLICT as a test for the row. Keys of the
-- tables are hypotheses of the theorems that need them. One counter gives the ids of all tables.
-- Times are microseconds, in the limiter whole seconds. A request is one step: what may interleave
-- with it is Postgres's affair, but the theorems on limits, sign-ins and webhooks speak of any
-- sequence of steps, at any times. A handler that fails commits nothing.
--
-- Bounds and fuel. Numbers are natural numbers; where the code subtracts times, the model adds on the
-- other side. Every loop is structural recursion: on the list that it runs through, or on the number
-- of rounds that are left in the agent. Cutting a long paragraph takes the number of its words as
-- fuel, and each turn takes one at least. Only reading page after page has fuel: the theorem asks for
-- more than there are alerts to be seen, and each page has one at least.
--
-- Parameters, for code that is not the program's: hashes of texts and tokens, random tokens, base64
-- and times as text, urlsplit and quote, JSON with its schemas, the JWT library, the database's order
-- of texts, the tables of white space, word characters and digits of texts, the model's stream, and
-- what the identity provider answers. The regular expressions of group names, citations, headings and
-- fences are written out.
--
-- Not modelled: connections, logs, metrics, traces and start-up, which are calls of libraries;
-- row-level security and the constraints inside Postgres; the frontend, deployment and scripts.
-- The evaluations, the command line and the MCP server, which wrap the parts above, and the regular
-- expressions of redaction have no model yet. In the other parts the redaction of a text and the
-- answers of providers are arguments. `int` in a cursor takes plain decimal digits; fields beside the
-- message of an ApiError are left out.
pub mod Prelude
pub mod Http
pub mod Settings
pub mod Access
pub mod Errors
pub mod Models
pub mod Audit
pub mod Queries
pub mod Sessions
pub mod Ratelimit
pub mod Switch
pub mod Privacy
pub mod Triage
pub mod Agent
pub mod Middleware
pub mod Llm
pub mod Json
pub mod Redact
pub mod Sse
pub mod Samples
pub mod Tools
pub mod Oidc
pub mod Runbooks
pub mod Routes
