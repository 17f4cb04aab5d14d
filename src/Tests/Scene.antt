-- ===== src/Tests/Scene.antt =====
-- An environment that computes, and tables with a user, a client, a code and a few roles.
use Prim.Native.Char.{code}
use Prim.Native.String.{◌++◌ as append}
use opentrusty.Prelude.{
  List, String, [], false, if◌then◌else◌, ltb, none, some, suc, true, zero, ℕ, ◌+◌, ◌∷◌,
}
use opentrusty.Domain.Authz.{RoleRow}
use opentrusty.Domain.Identity.{Credentials, Profile, User}
use opentrusty.Domain.Oauth2.{
  AuthorizationCode, AuthorizeRequest, Client, RefreshToken, TokenRequest,
}
use opentrusty.Domain.Sessions.{SessionRow}
use opentrusty.World.{Env, World}

-- The bytes of a text, and a text for bytes.
abbrev codes_of : String → List ℕ
codes_of String.[] = []
codes_of (String.◌∷◌ c s) = code c ∷ codes_of s

abbrev letter : ℕ → String
letter n = if ltb n 10 then "a" else if ltb n 100 then "b" else "c"

abbrev text_of_bytes : List ℕ → String
text_of_bytes [] = "."
text_of_bytes (b ∷ bs) = append (letter b) (text_of_bytes bs)

abbrev numeral : ℕ → String
numeral zero = "."
numeral (suc n) = append "i" (numeral n)

abbrev pub demo : Env
demo = record {
  clock = λ n. n + 100;
  outage = λ n. false;
  uuid = λ n. numeral n;
  random = λ n k. n ∷ k ∷ [];
  no_entropy = λ n. false;
  sha256 = codes_of;
  sha256_bytes = λ bs. bs;
  base64_raw_url = text_of_bytes;
  base64_url = text_of_bytes;
  base64_raw_std = text_of_bytes;
  base64_raw_std_decode = λ s. some (codes_of s);
  argon2id = λ p salt t m q n. codes_of p;
  sign_rs256 = λ k c. some "signed";
}

abbrev nobody : Profile
nobody = record {
  given_name = "";
  family_name = "";
  full_name = "";
  nickname = "";
  picture = "";
  locale = "";
  timezone = "";
}

-- A user whose row says that the account is locked for ever.
abbrev pub alice : User
alice = record {
  id = "alice";
  tenant_id = some "t1";
  email = "alice@t1";
  email_verified = false;
  profile = nobody;
  failed_login_attempts = 9;
  locked_until = some 1_000_000;
  created_at = 0;
  updated_at = 0;
  deleted_at = none;
}

abbrev pub alice_credentials : Credentials
alice_credentials = record {
  user_id = "alice";
  password_hash = "$argon2id$v=19$m=1,t=1,p=1$salt$secret";
  updated_at = 0;
}

abbrev pub app : Client
app = record {
  id = "c1";
  client_id = "app";
  tenant_id = "t1";
  client_secret_hash = "bb.";
  client_name = "App";
  client_uri = "";
  logo_uri = "";
  redirect_uris = "https://app/cb" ∷ [];
  allowed_scopes = "openid" ∷ "offline_access" ∷ [];
  grant_types = "refresh_token" ∷ [];
  response_types = [];
  token_endpoint_auth_method = "";
  access_token_lifetime = 3600;
  refresh_token_lifetime = 7200;
  id_token_lifetime = 3600;
  owner_id = "alice";
  is_trusted = false;
  is_active = true;
  created_at = none;
  updated_at = none;
  deleted_at = none;
}

abbrev pub asked : AuthorizeRequest
asked = record {
  client_id = "app";
  redirect_uri = "https://app/cb";
  response_type = "code";
  scope = "openid offline_access";
  state = "st";
  nonce = "";
  code_challenge = "";
  code_challenge_method = "";
}

abbrev pub granted_code : AuthorizationCode
granted_code = record {
  id = "k1";
  code = "code1";
  client_id = "app";
  user_id = "alice";
  redirect_uri = "https://app/cb";
  scope = "openid offline_access";
  state = "st";
  nonce = "";
  code_challenge = "";
  code_challenge_method = "";
  expires_at = 1000;
  used_at = none;
  is_used = false;
  created_at = 0;
}

abbrev pub stored_refresh_token : RefreshToken
stored_refresh_token = record {
  id = "r1";
  tenant_id = "t1";
  token_hash = "bcb.";
  access_token_id = "";
  client_id = "app";
  user_id = "alice";
  scope = "openid";
  expires_at = 1000;
  revoked_at = none;
  is_revoked = false;
  created_at = 0;
}

abbrev pub with_code : TokenRequest
with_code = record {
  grant_type = "authorization_code";
  code = "code1";
  redirect_uri = "https://app/cb";
  client_id = "app";
  client_secret = "SS";
  code_verifier = "";
  refresh_token = "";
  scope = "";
}

abbrev pub with_refresh : TokenRequest
with_refresh = record {
  grant_type = "refresh_token";
  code = "";
  redirect_uri = "";
  client_id = "app";
  client_secret = "SS";
  code_verifier = "";
  refresh_token = "AzA";
  scope = "";
}

abbrev pub open_session : SessionRow
open_session = record {
  id = "s1";
  tenant_id = some "t1";
  user_id = "alice";
  ip_address = "";
  user_agent = "";
  expires_at = 1000;
  created_at = 0;
  last_seen_at = 100;
}

abbrev pub old_session : SessionRow
old_session = record {
  id = "s2";
  tenant_id = some "t1";
  user_id = "bob";
  ip_address = "";
  user_agent = "";
  expires_at = 50;
  created_at = 0;
  last_seen_at = 0;
}

abbrev pub viewer : RoleRow
viewer = record {
  id = "viewer";
  name = "viewer";
  scope = "tenant";
  description = "";
  created_at = 0;
  updated_at = 0;
}

-- Alice is a viewer of the tenant t1.
abbrev pub scene : World
scene = record {
  events = 0;
  sessions = open_session ∷ old_session ∷ [];
  tenants = [];
  users = alice ∷ [];
  credentials = alice_credentials ∷ [];
  roles = viewer ∷ [];
  permissions = (record { id = "p1"; name = "tenant:view" }) ∷ [];
  role_permissions = (record { role_id = "viewer"; permission_id = "p1" }) ∷ [];
  assignments =
      (record {
        id = "a1";
        user_id = "alice";
        role_id = "viewer";
        scope = "tenant";
        scope_context_id = some "t1";
        granted_at = 0;
        granted_by = "";
      })
      ∷ [];
  clients = app ∷ [];
  codes = granted_code ∷ [];
  access_tokens = [];
  refresh_tokens = stored_refresh_token ∷ [];
  projects = [];
  keys = [];
  audit_log = [];
}
