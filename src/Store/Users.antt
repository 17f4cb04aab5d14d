-- ===== src/Store/Users.antt =====
-- `UserRepository` of internal/store/postgres/user_repository.go
use opentrusty.Prelude.{
  Bool, List, Option, String, [], any_row, find_row, if◌then◌else◌, is_some, none, not, same_text?,
  some, update_rows, ℕ, ◌&&◌, ◌++◌, ◌==◌, ◌||◌, ◌∷◌,
}
use opentrusty.Domain.Errors.{database, user_not_found, wrapped}
use opentrusty.Domain.Identity.{Credentials, User}
use opentrusty.World.{
  Env, M, World, gets, modify, one_row, or_raise, pure, raise, stamped_statement, statement,
  time_now, ◌>>=◌, ◌>>◌,
}

abbrev pub is_live : User → Bool
is_live u = not (is_some u.deleted_at)

abbrev pub has_id : String → User → Bool
has_id id r = r.id == id && is_live r

abbrev pub has_email : Option String → String → User → Bool
has_email tenant email r = same_text? r.tenant_id tenant && r.email == email && is_live r

-- UNIQUE (tenant_id, email): rows with no tenant do not conflict.
abbrev pub same_address : User → User → Bool
same_address u r = is_some u.tenant_id && same_text? r.tenant_id u.tenant_id && r.email == u.email

abbrev pub conflicts : User → User → Bool
conflicts u r = r.id == u.id || same_address u r

-- The columns that are selected: not `failed_login_attempts` and `locked_until`, which keep Go's
-- zero values.
abbrev pub scan : User → User
scan r = record r { failed_login_attempts = 0; locked_until = none }

abbrev set_users : List User → World → World
set_users rs w = record w { users = rs }

abbrev set_credentials : List Credentials → World → World
set_credentials rs w = record w { credentials = rs }

abbrev pub owned_by : String → Credentials → Bool
owned_by uid c = c.user_id == uid

abbrev pub is_target : User → User → Bool
is_target u r = r.id == u.id && same_text? r.tenant_id u.tenant_id && is_live r

-- The columns that `Update` sets, and `updated_at`, which a trigger sets.
abbrev pub overwrite : User → ℕ → User → User
overwrite u now r = record r {
  email = u.email;
  email_verified = u.email_verified;
  profile = u.profile;
  updated_at = now;
}

abbrev pub set_lockout : ℕ → Option ℕ → ℕ → User → User
set_lockout attempts until now r = record r {
  failed_login_attempts = attempts;
  locked_until = until;
  updated_at = now;
}

scan_or_raise : Option User → M User
scan_or_raise none = raise user_not_found
scan_or_raise (some r) = pure (scan r)

module _ ⦃env : Env⦄ where
  -- The user as the call leaves it: with the times of the row.
  unfoldable pub create : User → M User
  create u = do
    now ← time_now
    or_raise statement (wrapped "failed to insert user")
    rows ← gets (λ w. w.users)
    let u' = record u { created_at = now; updated_at = now }
    let row = record u' { failed_login_attempts = 0; locked_until = none; deleted_at = none }
    if any_row (conflicts u) rows
        then raise (wrapped "failed to insert user" database)
        else (do modify (set_users (rows ++ row ∷ [])); pure u')

  unfoldable pub add_credentials : Credentials → M (Unit {0})
  add_credentials c = do
    now ← time_now
    or_raise statement (wrapped "failed to insert credentials")
    rows ← gets (λ w. w.credentials)
    if any_row (owned_by c.user_id) rows
        then raise (wrapped "failed to insert credentials" database)
        else modify (set_credentials (rows ++ (record c { updated_at = now }) ∷ []))

  unfoldable pub get_by_id : String → M User
  unfolding scan_or_raise
  get_by_id id = do
    or_raise statement (wrapped "failed to get user")
    rows ← gets (λ w. w.users)
    scan_or_raise (find_row (has_id id) rows)

  unfoldable pub get_by_email : Option String → String → M User
  unfolding scan_or_raise
  get_by_email tenant email = do
    or_raise statement (wrapped "failed to get user")
    rows ← gets (λ w. w.users)
    scan_or_raise (find_row (has_email tenant email) rows)

  unfoldable pub update : User → M (Unit {0})
  update u = do
    now ← or_raise stamped_statement (wrapped "failed to update user")
    rows ← gets (λ w. w.users)
    if any_row (is_target u) rows
        then (if any_row (λ r. not (r.id == u.id) && same_address u r) rows
            then raise (wrapped "failed to update user" database)
            else modify (set_users (update_rows (is_target u) (overwrite u now) rows)))
        else raise user_not_found

  unfoldable pub update_lockout : String → ℕ → Option ℕ → M (Unit {0})
  update_lockout uid attempts until = do
    now ← or_raise stamped_statement (wrapped "failed to update user lockout status")
    rows ← gets (λ w. w.users)
    modify (set_users (update_rows (λ r. r.id == uid) (set_lockout attempts until now) rows))

  unfoldable pub delete : String → M (Unit {0})
  delete id = do
    now ← time_now
    stamp ← or_raise stamped_statement (wrapped "failed to delete user")
    rows ← gets (λ w. w.users)
    if any_row (has_id id) rows
        then modify (
            set_users (
              update_rows (has_id id) (λ r. record r { deleted_at = some now; updated_at = stamp })
                rows))
        else raise user_not_found

  unfoldable pub get_credentials : String → M Credentials
  get_credentials uid = do
    or_raise statement (wrapped "failed to get credentials")
    rows ← gets (λ w. w.credentials)
    one_row (find_row (owned_by uid) rows) user_not_found

  unfoldable pub update_password : String → String → M (Unit {0})
  update_password uid hash = do
    or_raise statement (wrapped "failed to update password")
    rows ← gets (λ w. w.credentials)
    if any_row (owned_by uid) rows
        then modify (
            set_credentials
              (update_rows (owned_by uid) (λ r. record r { password_hash = hash }) rows))
        else raise user_not_found
