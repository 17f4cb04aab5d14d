-- ===== src/Oauth2/Client.antt =====
-- The methods of `Client` of internal/oauth2/models.go, and `validatePKCE` and `containsScope` of
-- internal/oauth2/service.go.
pub mod Scopes
use opentrusty.Prelude.{Bool, List, String, [], false, if◌then◌else◌, true, ◌&&◌, ◌==◌, ◌||◌, ◌∷◌}
use opentrusty.Domain.Oauth2.{Client}
use opentrusty.Text.{fields, split}
use opentrusty.World.{Env, M, pure, read_random, ◌>>=◌}

-- A loop over a list that looks for a text.
unfoldable pub lists : List String → String → Bool
lists [] s = false
lists (t ∷ ts) s = t == s || lists ts s

-- `ValidateRedirectURI`
unfoldable pub validate_redirect_uri : Client → String → Bool
unfolding lists
validate_redirect_uri c uri = lists c.redirect_uris uri

-- The inner loop of `ValidateScope`.
unfoldable pub allows : List String → String → Bool
allows [] s = false
allows (a ∷ more) s = a == s || a == "*" || allows more s

-- The outer loop of `ValidateScope`.
unfoldable pub allows_all : List String → List String → Bool
unfolding allows
allows_all allowed [] = true
allows_all allowed (s ∷ ss) = allows allowed s && allows_all allowed ss

unfoldable pub validate_scope : Client → String → Bool
unfolding allows_all
validate_scope c scope = if scope == "" then true else allows_all c.allowed_scopes (fields scope)

-- `containsScope`
unfoldable pub contains_scope : String → String → Bool
unfolding lists
contains_scope scope target = lists (split scope) target

module _ ⦃env : Env⦄ where
  -- `hashToken`, `hashClientSecret`: base64 of the SHA-256 sum.
  unfoldable pub hash_token : String → String
  hash_token s = env.base64_raw_url (env.sha256 s)

  -- `generateToken`, `generateAuthorizationCode`
  unfoldable pub generate_token : M String
  generate_token = do b ← read_random 32; pure (env.base64_raw_url b)

  unfoldable pub validate_pkce : String → String → String → Bool
  unfolding hash_token
  validate_pkce challenge method verifier =
      if method == "" || method == "plain"
      then challenge == verifier
      else if method == "S256"
      then challenge == hash_token verifier
      else false
