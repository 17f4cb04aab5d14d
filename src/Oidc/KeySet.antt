-- ===== src/Oidc/KeySet.antt =====
-- The discovery metadata and the key set of internal/oidc/service.go. The key is an RSA key of the
-- standard library, given by its public half.
pub mod Bytes
use Prim.Native.String.{◌++◌ as append}
use opentrusty.Prelude.{List, String, [], eqb, if◌then◌else◌, ltb, suc, zero, ℕ, ◌%◌, ◌/◌, ◌∷◌}
use opentrusty.Oidc.{Service, take_bytes}
use opentrusty.World.{Env}

pub record DiscoveryMetadata : Type 0 where
  pub issuer : String
  pub authorization_endpoint : String
  pub token_endpoint : String
  pub jwks_uri : String
  pub response_types_supported : List String
  pub subject_types_supported : List String
  pub id_token_signing_alg_values_supported : List String
  pub scopes_supported : List String
  pub grant_types_supported : List String

-- `JWK`
pub record Jwk : Type 0 where
  pub kty : String
  pub key_use : String
  pub alg : String
  pub kid : String
  pub n : String
  pub e : String

-- `rsa.PublicKey`: the bytes of the modulus, and the exponent.
pub record PublicKey : Type 0 where
  pub modulus : List ℕ
  pub exponent : ℕ

unfoldable pub get_discovery_metadata : Service → DiscoveryMetadata
get_discovery_metadata s = record {
  issuer = s.issuer;
  authorization_endpoint = append s.issuer "/oauth2/authorize";
  token_endpoint = append s.issuer "/oauth2/token";
  jwks_uri = append s.issuer "/jwks.json";
  response_types_supported = "code" ∷ [];
  subject_types_supported = "public" ∷ [];
  id_token_signing_alg_values_supported = "RS256" ∷ [];
  scopes_supported = "openid" ∷ [];
  grant_types_supported = "authorization_code" ∷ "refresh_token" ∷ [];
}

-- The loop of `bigIntToBytes` on fuel, with the bytes so far.
unfoldable pub bytes_from : ℕ → ℕ → List ℕ → List ℕ
bytes_from zero n res = res
bytes_from (suc fuel) n res =
    let more = bytes_from fuel (n / 256) (n % 256 ∷ res) in if ltb 0 n then more else res

unfoldable pub big_int_to_bytes : ℕ → List ℕ
unfolding bytes_from
big_int_to_bytes n = if eqb n 0 then 0 ∷ [] else bytes_from n n []

module _ ⦃env : Env⦄ where
  -- `NewService`, given the key that was generated.
  unfoldable pub new_service : String → PublicKey → Service
  new_service issuer key = record {
    issuer = issuer;
    kid = env.base64_raw_url (take_bytes 16 (env.sha256_bytes key.modulus));
  }

  unfoldable pub get_jwks : Service → PublicKey → List Jwk
  unfolding big_int_to_bytes
  get_jwks s key =
      (record {
        kty = "RSA";
        key_use = "sig";
        alg = "RS256";
        kid = s.kid;
        n = env.base64_raw_url key.modulus;
        e = env.base64_raw_url (big_int_to_bytes key.exponent);
      })
      ∷ []
