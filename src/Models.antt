-- ===== src/Models.antt =====
-- The tables of apps/api/app/models.py, with the bodies of apps/api/app/schemas.py that several
-- parts share. A table is its rows, oldest first. Points in time are counted in microseconds, as
-- Postgres keeps them. One counter stands for the identity columns of all tables. Vectors are kept
-- in the text form in which apps/api/app/vector.py sends them.
use triage_assistant.Prelude.{ℕ, String, Bool, Option, List}
use triage_assistant.Access.Group.{Role}

-- Microseconds in a second.
abbrev pub second : ℕ
second = 1000000

-- Microseconds in a day.
abbrev pub day : ℕ
day = 86400000000

pub record Team : Type 0 where
  pub id : ℕ
  pub slug : String
  pub name : String

pub record User : Type 0 where
  pub id : ℕ
  pub issuer : String
  pub subject : String
  pub email : Option String
  pub name : Option String
  pub is_org_admin : Bool
  pub created_at : ℕ
  pub last_login_at : ℕ

pub record Membership : Type 0 where
  pub user_id : ℕ
  pub team_id : ℕ
  pub role : Role

pub record UserSession : Type 0 where
  pub id_hash : String
  pub user_id : ℕ
  pub created_at : ℕ
  pub last_seen_at : ℕ
  pub expires_at : ℕ
  pub id_token : Option String

pub record LoginRequest : Type 0 where
  pub state_hash : String
  pub nonce : String
  pub code_verifier : String
  pub next_path : String
  pub expires_at : ℕ

pub record Alert : Type 0 where
  pub id : ℕ
  pub team_id : ℕ
  pub source : String
  pub severity : String
  pub message : String
  pub created_at : ℕ
  pub external_id : Option String

pub record AlertOut : Type 0 where
  pub id : ℕ
  pub team : String
  pub source : String
  pub severity : String
  pub message : String
  pub created_at : ℕ

pub record Runbook : Type 0 where
  pub id : ℕ
  pub team_id : ℕ
  pub title : String
  pub source_url : Option String
  pub body : String
  pub body_sha256 : String
  pub embedding_key : String
  pub updated_at : ℕ

pub record RunbookChunk : Type 0 where
  pub id : ℕ
  pub runbook_id : ℕ
  pub team_id : ℕ
  pub ordinal : ℕ
  pub heading : String
  pub content : String
  pub embedding : String
  pub embedding_key : String

-- A value in an event's detail.
pub data Detail : Type 0 where
  nothing : Detail
  text : String → Detail
  number : ℕ → Detail
  numbers : List ℕ → Detail
  -- chunk_id, runbook_id and runbook_sha256 of each section
  sections : List (ℕ × ℕ × String) → Detail

pub record AuditEvent : Type 0 where
  pub id : ℕ
  pub created_at : ℕ
  pub action : String
  pub actor_user_id : Option ℕ
  pub via : String
  pub team_id : Option ℕ
  pub target_id : Option ℕ
  pub request_id : Option String
  pub trace_id : Option String
  pub detail : List (String × Detail)

pub record AssistantSwitch : Type 0 where
  pub enabled : Bool
  pub reason : Option String
  pub changed_by : Option ℕ
  pub changed_at : ℕ

pub record Db : Type 0 where
  pub teams : List Team
  pub users : List User
  pub memberships : List Membership
  pub sessions : List UserSession
  pub login_requests : List LoginRequest
  pub alerts : List Alert
  pub runbooks : List Runbook
  pub runbook_chunks : List RunbookChunk
  pub audit_events : List AuditEvent
  pub assistant_switch : AssistantSwitch
  pub next_id : ℕ
