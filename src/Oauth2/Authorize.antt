-- ===== src/Oauth2/Authorize.antt =====
-- `ValidateAuthorizeRequest` and `CreateAuthorizationCode` of internal/oauth2/service.go.
pub mod Accept
use opentrusty.Store.Clients
use opentrusty.Store.Codes
use opentrusty.Prelude.{Bool, String, false, none, not, ℕ, ◌&&◌, ◌*◌, ◌+◌, ◌==◌, ◌||◌}
use opentrusty.Domain.Errors.{
  invalid_request, invalid_scope, new_error, server_error, unsupported_grant_type,
}
use opentrusty.Domain.Oauth2.{AuthorizationCode, AuthorizeRequest, Client}
use opentrusty.Oauth2.Client.{generate_token, validate_redirect_uri, validate_scope}
use opentrusty.World.{Env, M, new_uuid, or_raise, pure, raise_if, second, time_now, ◌>>=◌, ◌>>◌}

unfoldable pub is_known_method : String → Bool
is_known_method m = m == "" || m == "plain" || m == "S256"

-- The code lives for five minutes.
unfoldable pub new_code : AuthorizeRequest → String → String → String → ℕ → ℕ → AuthorizationCode
new_code req user_id id raw expiry created = record {
  id = id;
  code = raw;
  client_id = req.client_id;
  user_id = user_id;
  redirect_uri = req.redirect_uri;
  scope = req.scope;
  state = req.state;
  nonce = req.nonce;
  code_challenge = req.code_challenge;
  code_challenge_method = req.code_challenge_method;
  expires_at = expiry + 300 * second;
  used_at = none;
  is_used = false;
  created_at = created;
}

module _ ⦃env : Env⦄ where
  unfoldable pub validate_authorize_request : AuthorizeRequest → M Client
  validate_authorize_request req = do
    client ←
        or_raise (Clients.get_by_client_id req.client_id)
          (λ _. new_error invalid_request "invalid client_id")
    raise_if (not client.is_active) (new_error invalid_request "client is disabled")
    raise_if (not (validate_redirect_uri client req.redirect_uri))
        (new_error invalid_request "invalid redirect_uri")
    raise_if (not (req.response_type == "code"))
        (new_error unsupported_grant_type "response_type must be 'code'")
    raise_if (not (req.scope == "") && not (validate_scope client req.scope))
        (new_error invalid_scope "invalid scope")
    raise_if (not (req.code_challenge == "") && not (is_known_method req.code_challenge_method))
        (new_error invalid_request "transform algorithm not supported")
    pure client

  unfoldable pub create_authorization_code : AuthorizeRequest → String → M AuthorizationCode
  unfolding new_code
  create_authorization_code req user_id = do
    id ← new_uuid
    raw ← generate_token
    expiry ← time_now
    created ← time_now
    let code = new_code req user_id id raw expiry created
    or_raise (Codes.create code)
        (λ _. new_error server_error "failed to persist authorization code")
    pure code
