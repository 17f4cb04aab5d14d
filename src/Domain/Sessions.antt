-- ===== src/Domain/Sessions.antt =====
-- `Session` of internal/session/session.go, and the row of the table `sessions`
-- (internal/store/postgres/migrations/001_initial_schema.up.sql).
use opentrusty.Prelude.{Option, String, ℕ}

pub record Session : Type 0 where
  pub id : String
  pub tenant_id : Option String
  pub user_id : String
  pub ip_address : String
  pub user_agent : String
  pub expires_at : ℕ
  pub created_at : ℕ
  pub last_seen_at : ℕ
  pub namespace : String

-- The table has no column for the namespace.
pub record SessionRow : Type 0 where
  pub id : String
  pub tenant_id : Option String
  pub user_id : String
  pub ip_address : String
  pub user_agent : String
  pub expires_at : ℕ
  pub created_at : ℕ
  pub last_seen_at : ℕ
