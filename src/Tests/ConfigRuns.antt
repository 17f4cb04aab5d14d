-- ===== src/Tests/ConfigRuns.antt =====
-- A configuration with two variables, a hash that is verified, the bytes of a number and an event
-- with a secret.
use opentrusty.Identity.Password
use mathlib.Core.Option
use opentrusty.Prelude.{
  AreBytes, Option, String, [], arith, eqb, if◌then◌else◌, none, pos, refl, some, true, ℤ, ◌==◌,
  ◌∷◌, ◌≡◌, ◌≢◌,
}
use opentrusty.Config.{
  Config, atoi, get_env, load, parse_duration, parse_int, read_config, read_security, to_uint,
  validate,
}
use opentrusty.Config.Bounds.{Fits, load-Fits, parse_int-decimal}
use opentrusty.Domain.Audit.{Event, event, text}
use opentrusty.Oidc.KeySet.{big_int_to_bytes}
use opentrusty.Oidc.KeySet.Bytes.{big_int_to_bytes-value, value}
use opentrusty.Startup.{hasher_of}
use opentrusty.Startup.Configured.{configured-verify-hash}
use opentrusty.Tests.Scene.{demo, scene}
use opentrusty.Text.{join}
use opentrusty.World.{Env, ok, tick}

abbrev variables : String → String
variables name =
    if name == "DB_PASSWORD"
    then "secret"
    else if name == "OPENID_KEY_ENCRYPTION_KEY"
    then "key"
    else if name == "ARGON2_PARALLELISM"
    then "256"
    else ""

abbrev no_duration : String → Option ℤ
no_duration s = none

load-Fits_example :
    (variables "DB_PASSWORD" ≢ "")
    × (variables "OPENID_KEY_ENCRYPTION_KEY" ≢ "")
    × Fits (read_config variables no_duration).security
unfolding load read_config validate get_env
load-Fits_example = load-Fits variables no_duration (read_config variables no_duration) refl

parse_int-decimal_example :
    (parse_int variables no_duration "ARGON2_PARALLELISM" (pos 4) ≡ pos 256)
    × (to_uint 32 (parse_int variables no_duration "ARGON2_PARALLELISM" (pos 4)) ≡ 256)
    × (to_uint 8 (parse_int variables no_duration "ARGON2_PARALLELISM" (pos 4)) ≡ 0)
unfolding Password.decimal Password.decimal_fuel
parse_int-decimal_example =
    parse_int-decimal variables no_duration "ARGON2_PARALLELISM" 256 (pos 4) (omega arith) refl

big_int_to_bytes-value_example :
    (value (big_int_to_bytes 65_537) ≡ 65_537) × AreBytes (big_int_to_bytes 65_537)
big_int_to_bytes-value_example = big_int_to_bytes-value 65_537

-- An event with a secret and a plain value.
abbrev rotated : Event
rotated =
    event "secret_rotated" "t1" "alice" "client"
      (("Client_Secret", text "abc") ∷ ("client_id", text "app") ∷ [])

-- Base64 for one salt and one key.
abbrev texts : Env
texts = record demo {
  random = λ n k. 1 ∷ 2 ∷ [];
  argon2id = λ password salt t m p n. 7 ∷ 8 ∷ 9 ∷ [];
  base64_raw_std = λ bs. if eqb (Password.length bs) 2 then "salt" else "hash";
  base64_raw_std_decode = λ s. if s == "salt" then some (1 ∷ 2 ∷ []) else some (7 ∷ 8 ∷ 9 ∷ []);
}

abbrev short_key : String → String
short_key name =
    if name == "ARGON2_KEY_LENGTH"
    then "3"
    else if name == "ARGON2_SALT_LENGTH"
    then "2"
    else if name == "ARGON2_PARALLELISM"
    then "4"
    else variables name

abbrev configured : Config
configured = read_config short_key no_duration

configured-verify-hash_example :
    Password.verify ⦃env = texts⦄ "secret" "$argon2id$v=19$m=65536,t=3,p=4$salt$hash" ≡ ok true
unfolding load read_config validate get_env read_security parse_int parse_duration to_uint atoi
    hasher_of Password.hash Password.encode Password.decimal Password.decimal_fuel join
    Password.drop_sign Password.scan_digits
configured-verify-hash_example =
    configured-verify-hash ⦃env = texts⦄ short_key no_duration configured "secret"
      "$argon2id$v=19$m=65536,t=3,p=4$salt$hash" scene (tick scene) refl
      (record { plain = refl; full = refl; decoded = refl })
      (record { plain = refl; full = refl; decoded = refl })
      (omega arith, (omega arith, (omega arith, tt))) refl refl
