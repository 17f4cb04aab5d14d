-- ===== src/Tests/IdentityRuns.antt =====
-- Logins and the bootstrap in the scene.
use opentrusty.Identity.Service as Accounts
use opentrusty.Identity.Login as Login
use opentrusty.Identity.Password
use opentrusty.Store.Users
use opentrusty.Store.Assignments
use opentrusty.Prelude.{
  ==_iff, [], any_row, ap, arith, false, find_row, none, refl, some, true, update_rows, ◌++◌, ◌==◌,
  ◌∷◌, ◌≡◌,
}
use opentrusty.Domain.Audit.{event, text}
use opentrusty.Domain.Authz.{scope_platform}
use opentrusty.Domain.Errors.{invalid_credentials}
use opentrusty.Domain.Identity.{User}
use opentrusty.Identity.Bootstrap.{assign_admin, bootstrap, find_or_create, platform_admin_id}
use opentrusty.Identity.Bootstrap.Once.{bootstrap_once, is_admin}
use opentrusty.Tests.Scene.{alice, alice_credentials, demo, scene}
use opentrusty.Text.{is_space}
use opentrusty.World.{World, err, log, ok, tick}

abbrev service : Accounts.Service
service = record {
  hasher = record { memory = 1; iterations = 1; parallelism = 1; salt_length = 1; key_length = 1 };
  lockout_max_attempts = 5;
  lockout_duration = 900;
}

abbrev logged_in : World
logged_in = record scene {
  events = 2;
  audit_log = event "login_success" "t1" "alice" "login" [] ∷ [];
}

login_runs :
    Accounts.authenticate ⦃env = demo⦄ service "t1" "alice@t1" "secret" scene
    ≡ (ok (Users.scan alice), logged_in)
unfolding Accounts.authenticate Accounts.authenticate_user Accounts.is_locked
    Accounts.record_success Users.get_by_email Users.get_credentials Password.verify
    Password.sections Password.verify_sections Password.scan_version Password.scan_parameters
    Password.same_hash Password.scan_int Password.scan_uint Password.scan_text Password.scan_digits
    Password.skip_space Password.drop_sign Password.sections_from Password.difference is_space
login_runs = refl

wrong_password : Password.verify ⦃env = demo⦄ "guess" alice_credentials.password_hash ≡ ok false
unfolding Password.verify Password.sections Password.verify_sections Password.scan_version
    Password.scan_parameters Password.same_hash Password.scan_int Password.scan_uint
    Password.scan_text Password.scan_digits Password.skip_space Password.drop_sign
    Password.sections_from Password.difference is_space
wrong_password = refl

authenticate_sound_example :
    (r : User) × (find_row (Users.has_email (some "t1") "alice@t1") scene.users ≡ some r)
    × (Users.scan r ≡ Users.scan alice)
    × Login.Verifies ⦃env = demo⦄ scene "alice" "secret"
    × (logged_in ≡ (log (event "login_success" "t1" r.id "login" []) (tick (tick scene))).1)
authenticate_sound_example =
    Login.authenticate_sound ⦃env = demo⦄ service "t1" "alice@t1" "secret" scene logged_in
      (Users.scan alice) login_runs

authenticate_wrong_password_example :
    ((Accounts.authenticate ⦃env = demo⦄ service "t1" "alice@t1" "guess" scene).0
      ≡ err invalid_credentials)
    × ((Accounts.authenticate ⦃env = demo⦄ service "t1" "alice@t1" "guess" scene).1.users
        ≡ update_rows (λ q. q.id == "alice") (Users.set_lockout 1 none 102) scene.users)
authenticate_wrong_password_example =
    Login.authenticate_wrong_password ⦃env = demo⦄ service "t1" "alice@t1" "guess" scene alice
      alice_credentials (λ n. refl) (omega arith) refl refl (λ h. ground (arith, wrong_password))
      (ap Login.panics wrong_password)

abbrev bootstrapped : World
bootstrapped = record scene {
  events = 5;
  assignments =
      scene.assignments
      ++ (record {
        id = "ii.";
        user_id = "alice";
        role_id = platform_admin_id;
        scope = scope_platform;
        scope_context_id = none;
        granted_at = 103;
        granted_by = "";
      })
        ∷ [];
  audit_log =
      event "platform_admin_bootstrap" "t1" "alice" "platform" (
        ("email", text "alice@t1")
        ∷ ("tenant_id", text "t1")
        ∷ ("role_id", text platform_admin_id)
        ∷ [])
      ∷ [];
}

bootstrap_runs : bootstrap ⦃env = demo⦄ service "alice@t1" "t1" scene ≡ (ok tt, bootstrapped)
unfolding bootstrap find_or_create assign_admin Assignments.check_exists Assignments.grant
    Users.get_by_email
bootstrap_runs = refl

bootstrap_once_example :
    (any_row is_admin bootstrapped.assignments ≡ true)
    × (bootstrap ⦃env = demo⦄ service "eve@t2" "t2" bootstrapped ≡ (ok tt, tick bootstrapped))
bootstrap_once_example =
    bootstrap_once ⦃env = demo⦄ service "alice@t1" "t1" "eve@t2" "t2" scene bootstrapped
      (λ h. ground (arith, ==_iff "alice@t1" "")) (λ h. ground (arith, ==_iff "eve@t2" ""))
      bootstrap_runs refl
