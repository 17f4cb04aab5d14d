-- ===== src/Startup.antt =====
-- What cmd/server/main.go makes of its arguments and of the configuration, and the key that
-- `NewService` of internal/oauth2/service.go asks for.
pub mod Configured
use opentrusty.Identity.Password as Password
use opentrusty.Prelude.{List, Option, String, [], eqb, if◌then◌else◌, none, some, ◌==◌, ◌||◌, ◌∷◌}
use opentrusty.Config.{SecurityConfig}
use opentrusty.Text.{byte_len}

pub data Command : Type 0 where
  run_bootstrap : Command
  run_migrate : Command
  serve_mode : String → Command
  -- the process prints that the mode is unknown and exits
  unknown_mode : String → Command

unfoldable pub serve_argument : List String → Command
serve_argument [] = serve_mode "all"
serve_argument (sub ∷ more) =
    if sub == "auth" || sub == "admin" || sub == "all" then serve_mode sub else unknown_mode sub

-- The arguments after the name of the program. A command that is not known serves everything.
unfoldable pub command_of : List String → Command
unfolding serve_argument
command_of [] = serve_mode "all"
command_of (name ∷ more) =
    if name == "bootstrap"
    then run_bootstrap
    else if name == "migrate"
    then run_migrate
    else if name == "serve"
    then serve_argument more
    else serve_mode "all"

pub data SameSite : Type 0 where
  lax_mode strict_mode none_mode : SameSite

unfoldable pub same_site_of : String → SameSite
same_site_of name =
    if name == "Strict" then strict_mode else if name == "None" then none_mode else lax_mode

-- `NewPasswordHasher` with the numbers of the configuration.
unfoldable pub hasher_of : SecurityConfig → Password.PasswordHasher
hasher_of s = record {
  memory = s.argon2_memory;
  iterations = s.argon2_iterations;
  parallelism = s.argon2_parallelism;
  salt_length = s.argon2_salt_length;
  key_length = s.argon2_key_length;
}

-- The bytes of the key, or nothing where `NewService` panics.
unfoldable pub encryption_key : (String → String) → Option String
unfolding byte_len
encryption_key get =
    if eqb (byte_len (get "OPENID_KEY_ENCRYPTION_KEY")) 32
    then some (get "OPENID_KEY_ENCRYPTION_KEY")
    else none
