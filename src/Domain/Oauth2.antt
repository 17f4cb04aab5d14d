-- ===== src/Domain/Oauth2.antt =====
-- internal/oauth2/models.go and the requests of internal/oauth2/service.go. The rows of the tables
-- `oauth2_clients`, `authorization_codes`, `access_tokens` and `refresh_tokens` have the columns
-- of these records.
use opentrusty.Prelude.{Bool, List, Option, String, ℕ}

pub record Client : Type 0 where
  pub id : String
  pub client_id : String
  pub tenant_id : String
  pub client_secret_hash : String
  pub client_name : String
  pub client_uri : String
  pub logo_uri : String
  pub redirect_uris : List String
  pub allowed_scopes : List String
  pub grant_types : List String
  pub response_types : List String
  pub token_endpoint_auth_method : String
  pub access_token_lifetime : ℕ
  pub refresh_token_lifetime : ℕ
  pub id_token_lifetime : ℕ
  pub owner_id : String
  pub is_trusted : Bool
  pub is_active : Bool
  pub created_at : Option ℕ
  pub updated_at : Option ℕ
  pub deleted_at : Option ℕ

pub record AuthorizationCode : Type 0 where
  pub id : String
  pub code : String
  pub client_id : String
  pub user_id : String
  pub redirect_uri : String
  pub scope : String
  pub state : String
  pub nonce : String
  pub code_challenge : String
  pub code_challenge_method : String
  pub expires_at : ℕ
  pub used_at : Option ℕ
  pub is_used : Bool
  pub created_at : ℕ

pub record AccessToken : Type 0 where
  pub id : String
  pub tenant_id : String
  pub token_hash : String
  pub client_id : String
  pub user_id : String
  pub scope : String
  pub token_type : String
  pub expires_at : ℕ
  pub revoked_at : Option ℕ
  pub is_revoked : Bool
  pub created_at : ℕ

pub record RefreshToken : Type 0 where
  pub id : String
  pub tenant_id : String
  pub token_hash : String
  pub access_token_id : String
  pub client_id : String
  pub user_id : String
  pub scope : String
  pub expires_at : ℕ
  pub revoked_at : Option ℕ
  pub is_revoked : Bool
  pub created_at : ℕ

pub record AuthorizeRequest : Type 0 where
  pub client_id : String
  pub redirect_uri : String
  pub response_type : String
  pub scope : String
  pub state : String
  pub nonce : String
  pub code_challenge : String
  pub code_challenge_method : String

pub record TokenRequest : Type 0 where
  pub grant_type : String
  pub code : String
  pub redirect_uri : String
  pub client_id : String
  pub client_secret : String
  pub code_verifier : String
  pub refresh_token : String
  pub scope : String

pub record TokenResponse : Type 0 where
  pub access_token : String
  pub token_type : String
  pub expires_in : ℕ
  pub refresh_token : String
  pub id_token : String
  pub scope : String

-- The claims of an ID token (internal/oidc/service.go).
pub record Claims : Type 0 where
  pub iss : String
  pub sub : String
  pub aud : String
  pub exp : ℕ
  pub iat : ℕ
  pub nonce : Option String
  pub at_hash : Option String

-- `Key` of internal/oauth2/keys.go. A row of the table `openid_keys` has the same columns.
pub record Key : Type 0 where
  pub id : String
  pub kind : String
  pub algorithm : String
  pub public_key : String
  pub private_key_encrypted : List ℕ
  pub created_at : ℕ
  pub expires_at : ℕ
