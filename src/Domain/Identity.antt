-- ===== src/Domain/Identity.antt =====
-- internal/identity/user.go. A row of the table `users` has the columns of `User`, a row of
-- `credentials` those of `Credentials`.
use opentrusty.Prelude.{Bool, Option, String, ℕ}

-- Optional profile data of a user.
pub record Profile : Type 0 where
  pub given_name : String
  pub family_name : String
  pub full_name : String
  pub nickname : String
  pub picture : String
  pub locale : String
  pub timezone : String

pub record User : Type 0 where
  pub id : String
  pub tenant_id : Option String
  pub email : String
  pub email_verified : Bool
  pub profile : Profile
  pub failed_login_attempts : ℕ
  pub locked_until : Option ℕ
  pub created_at : ℕ
  pub updated_at : ℕ
  pub deleted_at : Option ℕ

pub record Credentials : Type 0 where
  pub user_id : String
  pub password_hash : String
  pub updated_at : ℕ
