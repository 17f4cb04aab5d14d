-- ===== src/Domain/Errors.antt =====
-- The errors that the services return: the sentinel values of internal/session, internal/identity,
-- internal/oauth2 and internal/authz, the protocol error of internal/oauth2/errors.go, and a
-- failure of the database driver.
use opentrusty.Prelude.{Bool, String, false, true}

-- `oauth2.Error`
pub record Protocol : Type 0 where
  pub code : String
  pub description : String
  pub uri : String
  pub state : String

pub data Error : Type 0 where
  -- a statement that the driver could not complete
  database : Error
  -- `pgx.ErrNoRows`
  no_rows : Error
  -- the source of random bytes failed
  entropy : Error
  -- the JWT library failed to sign
  signing : Error
  -- `fmt.Errorf("text: %w", err)`
  wrapped : String → Error → Error
  -- `fmt.Errorf` with no error inside
  message : String → Error
  session_not_found : Error
  session_expired : Error
  user_not_found : Error
  user_already_exists : Error
  invalid_credentials : Error
  invalid_email : Error
  weak_password : Error
  account_locked : Error
  client_not_found : Error
  code_not_found : Error
  token_not_found : Error
  token_revoked : Error
  token_expired : Error
  role_not_found : Error
  project_not_found : Error
  tenant_not_found : Error
  tenant_already_exists : Error
  invalid_tenant_name : Error
  tenant_role_not_found : Error
  tenant_role_already_exists : Error
  protocol : Protocol → Error
  -- a panic: it ends the call, whatever the code does with errors
  panicked : String → Error

abbrev pub is_panic : Error → Bool
is_panic (panicked _) = true
is_panic _ = false

-- `NewError`
abbrev pub new_error : String → String → Error
new_error code description =
    protocol (record { code = code; description = description; uri = ""; state = "" })

-- `WithState`
abbrev pub with_state : Protocol → String → Protocol
with_state e s = record e { state = s }

abbrev pub invalid_request : String
invalid_request = "invalid_request"

abbrev pub invalid_client : String
invalid_client = "invalid_client"

abbrev pub invalid_grant : String
invalid_grant = "invalid_grant"

abbrev pub unsupported_grant_type : String
unsupported_grant_type = "unsupported_grant_type"

abbrev pub invalid_scope : String
invalid_scope = "invalid_scope"

abbrev pub server_error : String
server_error = "server_error"
