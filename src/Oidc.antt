-- ===== src/Oidc.antt =====
-- `Service` of internal/oidc/service.go: the ID token. The JWT library is `env.sign_rs256`.
pub mod KeySet
use Prim.Native.String.{◌++◌ as append}
use opentrusty.Prelude.{
  List, String, [], if◌then◌else◌, none, some, suc, zero, ℕ, ◌*◌, ◌+◌, ◌/◌, ◌==◌, ◌∷◌,
}
use opentrusty.Domain.Errors.{signing}
use opentrusty.Domain.Oauth2.{Claims}
use opentrusty.World.{Env, M, one_row, second, time_now, ◌>>=◌, ◌>>◌}

pub record Service : Type 0 where
  pub issuer : String
  pub kid : String

abbrev pub take_bytes : ℕ → List ℕ → List ℕ
take_bytes zero bs = []
take_bytes (suc n) [] = []
take_bytes (suc n) (b ∷ bs) = b ∷ take_bytes n bs

module _ ⦃env : Env⦄ where
  -- The subject depends on the tenant and the user.
  unfoldable pub subject : String → String → String
  subject user_id tenant_id =
      env.base64_raw_url (env.sha256 (append tenant_id (append ":" user_id)))

  -- The left half of the 32 bytes of the hash.
  unfoldable pub at_hash : String → String
  at_hash access_token = env.base64_raw_url (take_bytes 16 (env.sha256 access_token))

  unfoldable pub claims : Service → String → String → String → String → String → ℕ → Claims
  claims s user_id tenant_id client_id nonce access_token now = record {
    iss = s.issuer;
    sub = subject user_id tenant_id;
    aud = client_id;
    exp = (now + 300 * second) / second;
    iat = now / second;
    nonce = if nonce == "" then none else some nonce;
    at_hash = if access_token == "" then none else some (at_hash access_token);
  }

  unfoldable pub generate_id_token : Service → String → String → String → String → String → M String
  generate_id_token s user_id tenant_id client_id nonce access_token = do
    now ← time_now
    one_row (env.sign_rs256 s.kid (claims s user_id tenant_id client_id nonce access_token now))
        signing
