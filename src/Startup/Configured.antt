-- ===== src/Startup/Configured.antt =====
-- What the configuration gives the program that is started with it (cmd/server/main.go).
use opentrusty.Identity.Password as Password
use opentrusty.Prelude.{AreBytes, Bool, Option, String, true, ℤ, ◌==◌, ◌||◌, ◌≡◌}
use opentrusty.Config.{Config, load}
use opentrusty.Config.Bounds.{load-Fits}
use opentrusty.Identity.Password.RoundTrip.{IsReadable, key_of, verify-hash}
use opentrusty.Startup.{hasher_of}
use opentrusty.World.{Env, World, ok}

-- The modes in which the program serves.
abbrev pub is_mode : String → Bool
is_mode m = m == "auth" || m == "admin" || m == "all"

module _ ⦃env : Env⦄ (get : String → String) (duration : String → Option ℤ) where
  -- The hasher of a program whose configuration is loaded makes hashes that it verifies, as long as
  -- the texts of the salt and of the key are not empty, are decoded to them and have no `$`, and
  -- the key is of the bytes and of the length that were asked for.
  pub configured-verify-hash :
      (c : Config) (password encoded : String) (w w' : World)
      → load get duration ≡ ok c
      → IsReadable (env.random w.events c.security.argon2_salt_length)
      → IsReadable (
          key_of
            (hasher_of c.security)
            password
            (env.random w.events c.security.argon2_salt_length))
      → AreBytes (
          key_of
            (hasher_of c.security)
            password
            (env.random w.events c.security.argon2_salt_length))
      → Password.length (
          key_of
            (hasher_of c.security)
            password
            (env.random w.events c.security.argon2_salt_length))
        ≡ c.security.argon2_key_length
      → Password.hash (hasher_of c.security) password w ≡ (ok encoded, w')
      → Password.verify password encoded ≡ ok true
  unfolding hasher_of
  configured-verify-hash c password encoded w w' loaded rs rk bytes long h =
      let (password_set, key_set, fits) = load-Fits get duration c loaded in
      verify-hash (hasher_of c.security) password encoded w w'
        (record {
          memory = fits.memory;
          iterations = fits.iterations;
          parallelism = fits.parallelism;
          key_length = fits.key_length;
        })
        rs rk bytes long h
