-- ===== src/Identity/Service.antt =====
-- `Service` of internal/identity/service.go.
use opentrusty.Store.Users
use opentrusty.Identity.Password
use opentrusty.Prelude.{
  Bool, List, Option, String, [], false, if◌then◌else◌, is_some, leb, ltb, none, not, some, true, ℕ,
  ◌&&◌, ◌+◌, ◌==◌, ◌||◌, ◌∷◌,
}
use opentrusty.Domain.Audit.{Event, Value, event, number, text}
use opentrusty.Domain.Errors.{
  account_locked, invalid_credentials, invalid_email, user_already_exists, user_not_found,
  weak_password, wrapped,
}
use opentrusty.Domain.Identity.{Profile, User}
use opentrusty.Identity.Password.{PasswordHasher, lift}
use opentrusty.Text.{byte_len}
use opentrusty.World.{
  Env, M, Result, attempt, attempt_unless_panic, err, log, new_uuid, ok, or_raise,
  or_raise_unless_panic, pure, raise, raise_if, skip, time_now, ◌>>=◌, ◌>>◌,
}

pub record Service : Type 0 where
  pub hasher : PasswordHasher
  pub lockout_max_attempts : ℕ
  pub lockout_duration : ℕ

-- The pointer that stands for no tenant is nil.
abbrev pub tenant_of : String → Option String
tenant_of t = if t == "" then none else some t

unfoldable pub is_valid_email : String → Bool
unfolding byte_len
is_valid_email email = ltb 3 (byte_len email) && ltb (byte_len email) 255

unfoldable pub is_strong_password : String → Bool
unfolding byte_len
is_strong_password password = leb 8 (byte_len password)

-- `err != nil || !valid`
abbrev pub rejects : Result Bool → Bool
rejects (ok b) = not b
rejects (err _) = true

abbrev is_ok : {A : Type 0} → Result A → Bool
is_ok (ok _) = true
is_ok (err _) = false

abbrev login_failed : String → String → String → List (String × Value) → Event
login_failed tenant actor resource meta = event "login_failed" tenant actor resource meta

module _ ⦃env : Env⦄ where
  unfoldable pub provision_identity : String → String → Profile → M User
  unfolding is_valid_email
  provision_identity tenant_id email profile = do
    raise_if (not (is_valid_email email)) invalid_email
    existing ← attempt (Users.get_by_email (tenant_of tenant_id) email)
    raise_if (is_ok existing) user_already_exists
    id ← new_uuid
    or_raise
        (Users.create (record {
          id = id;
          tenant_id = tenant_of tenant_id;
          email = email;
          email_verified = false;
          profile = profile;
          failed_login_attempts = 0;
          locked_until = none;
          created_at = 0;
          updated_at = 0;
          deleted_at = none;
        }))
        (wrapped "failed to create identity")

  unfoldable pub add_password : Service → String → String → M (Unit {0})
  unfolding is_strong_password
  add_password s user_id password = do
    raise_if (not (is_strong_password password)) weak_password
    password_hash ←
        or_raise_unless_panic (Password.hash s.hasher password) (wrapped "failed to hash password")
    or_raise
        (Users.add_credentials
          (record { user_id = user_id; password_hash = password_hash; updated_at = 0 }))
        (wrapped "failed to add credentials")

  -- `user.LockedUntil != nil && user.LockedUntil.After(time.Now())`
  unfoldable pub is_locked : Option ℕ → M Bool
  is_locked none = pure false
  is_locked (some t) = do now ← time_now; pure (ltb now t)

  -- The new attempts reach the limit: the end of the lockout, and an audit event.
  unfoldable pub lockout_end : Service → String → User → ℕ → M (Option ℕ)
  lockout_end s tenant_id user attempts =
      if leb s.lockout_max_attempts attempts
      then (do
        now ← time_now
        log (event "user_locked" tenant_id user.id "login" (("attempts", number attempts) ∷ []))
        pure (some (now + s.lockout_duration)))
      else pure none

  -- The branch of a wrong password.
  unfoldable pub record_failure : Service → String → User → M User
  unfolding lockout_end
  record_failure s tenant_id user = do
    let attempts = user.failed_login_attempts + 1
    until ← lockout_end s tenant_id user attempts
    attempt (Users.update_lockout user.id attempts until)
    log (
        login_failed tenant_id user.id "login"
          (("reason", text "invalid_password") ∷ ("attempts", number attempts) ∷ []))
    raise invalid_credentials

  -- The branch of the right password.
  unfoldable pub record_success : String → User → M User
  record_success tenant_id user = do
    (if ltb 0 user.failed_login_attempts || is_some user.locked_until
        then (do attempt (Users.update_lockout user.id 0 none); skip)
        else skip)
    log (event "login_success" tenant_id user.id "login" [])
    pure user

  -- `Authenticate` once the user is found.
  unfoldable pub authenticate_user : Service → String → User → String → M User
  unfolding is_locked record_failure record_success
  authenticate_user s tenant_id user password = do
    locked ← is_locked user.locked_until
    if locked
        then (do
          log (login_failed tenant_id user.id "login" (("reason", text "locked_out") ∷ []))
          raise account_locked)
        else (do
          credentials ← or_raise (Users.get_credentials user.id) (λ _. invalid_credentials)
          valid ← attempt_unless_panic (lift (Password.verify password credentials.password_hash))
          if rejects valid then record_failure s tenant_id user else record_success tenant_id user)

  unfoldable pub unknown_user : String → String → M User
  unknown_user tenant_id email = do
    log (login_failed tenant_id "" email (("reason", text "user_not_found") ∷ []))
    raise invalid_credentials

  unfoldable pub authenticate : Service → String → String → String → M User
  unfolding unknown_user
  authenticate s tenant_id email password = do
    found ← attempt (Users.get_by_email (tenant_of tenant_id) email)
    elim found [
      | err _ ↦ unknown_user tenant_id email
      | ok user ↦ authenticate_user s tenant_id user password
    ]

  unfoldable pub get_by_email : String → String → M User
  get_by_email tenant_id email = Users.get_by_email (tenant_of tenant_id) email

  unfoldable pub get_user : String → M User
  get_user user_id = or_raise (Users.get_by_id user_id) (λ _. user_not_found)

  unfoldable pub update_profile : String → Profile → M (Unit {0})
  update_profile user_id profile = do
    user ← or_raise (Users.get_by_id user_id) (λ _. user_not_found)
    Users.update (record user { profile = profile })

  unfoldable pub change_password : Service → String → String → String → M (Unit {0})
  unfolding is_strong_password
  change_password s user_id old_password new_password = do
    credentials ← or_raise (Users.get_credentials user_id) (λ _. user_not_found)
    valid ← attempt_unless_panic (lift (Password.verify old_password credentials.password_hash))
    raise_if (rejects valid) invalid_credentials
    raise_if (not (is_strong_password new_password)) weak_password
    new_hash ←
        or_raise_unless_panic (Password.hash s.hasher new_password)
          (wrapped "failed to hash password")
    Users.update_password user_id new_hash
