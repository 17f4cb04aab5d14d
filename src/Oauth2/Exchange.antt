-- ===== src/Oauth2/Exchange.antt =====
-- `ExchangeCodeForToken` of internal/oauth2/service.go.
pub mod Checks
pub mod Grant
pub mod Changes
pub mod SingleUse
pub mod Race
pub mod Tokens
pub mod Validate
pub mod Complete
pub mod Flow
use opentrusty.Store.AccessTokens
use opentrusty.Store.Codes
use opentrusty.Store.RefreshTokens
use opentrusty.Oidc
use opentrusty.Prelude.{
  Option, String, [], false, if◌then◌else◌, ltb, none, not, some, ◌&&◌, ◌*◌, ◌+◌, ◌==◌, ◌∷◌,
}
use opentrusty.Domain.Audit.{event, flag, text}
use opentrusty.Domain.Errors.{invalid_grant, new_error, server_error, unsupported_grant_type}
use opentrusty.Domain.Oauth2.{
  AccessToken, AuthorizationCode, Client, RefreshToken, TokenRequest, TokenResponse,
}
use opentrusty.Oauth2.Client.{contains_scope, generate_token, hash_token, lists, validate_pkce}
use opentrusty.Oauth2.Service.{Service, validate_client_credentials}
use opentrusty.World.{
  Env, M, Result, attempt, err, log, new_uuid, ok, or_raise, pure, raise_if, second, time_now,
  ◌>>=◌, ◌>>◌,
}

abbrev text_of : Result String → String
text_of (ok s) = s
text_of (err e) = ""

module _ ⦃env : Env⦄ where
  -- Steps 3 and 4: the code is checked against the request.
  unfoldable pub check_code : TokenRequest → AuthorizationCode → M (Unit {0})
  check_code req code = do
    raise_if code.is_used (new_error invalid_grant "authorization code already used")
    now ← time_now
    raise_if (ltb code.expires_at now) (new_error invalid_grant "authorization code expired")
    raise_if (not (code.client_id == req.client_id)) (new_error invalid_grant "client_id mismatch")
    raise_if (not (code.redirect_uri == req.redirect_uri))
        (new_error invalid_grant "redirect_uri mismatch")
    raise_if
        (not (code.code_challenge == "")
          && not (validate_pkce code.code_challenge code.code_challenge_method req.code_verifier))
        (new_error invalid_grant "invalid code_verifier")

  -- Steps 3 to 5: the code is found, checked and marked.
  unfoldable pub redeem_code : TokenRequest → M AuthorizationCode
  redeem_code req = do
    code ←
        or_raise (Codes.get_by_code req.code)
          (λ _. new_error invalid_grant "authorization code not found")
    check_code req code
    or_raise (Codes.mark_as_used req.code)
        (λ _. new_error server_error "failed to invalidate authorization code")
    pure code

  -- Step 6, which the refresh grant has in common: the token, and the identifier of its row.
  unfoldable pub issue_access_token : Client → String → String → M (String × String)
  issue_access_token client user_id scope = do
    raw ← generate_token
    id ← new_uuid
    expiry ← time_now
    created ← time_now
    let at : AccessToken = record {
      id = id;
      tenant_id = client.tenant_id;
      token_hash = hash_token raw;
      client_id = client.client_id;
      user_id = user_id;
      scope = scope;
      token_type = "Bearer";
      expires_at = expiry + client.access_token_lifetime * second;
      revoked_at = none;
      is_revoked = false;
      created_at = created;
    }
    or_raise (AccessTokens.create at) (λ _. new_error server_error "failed to issue access token")
    pure (raw, id)

  unfoldable pub store_refresh_token : Client → AuthorizationCode → String → M String
  store_refresh_token client code access_token_id = do
    raw ← generate_token
    id ← new_uuid
    expiry ← time_now
    created ← time_now
    let rt : RefreshToken = record {
      id = id;
      tenant_id = client.tenant_id;
      token_hash = hash_token raw;
      access_token_id = access_token_id;
      client_id = client.client_id;
      user_id = code.user_id;
      scope = code.scope;
      expires_at = expiry + client.refresh_token_lifetime * second;
      revoked_at = none;
      is_revoked = false;
      created_at = created;
    }
    RefreshTokens.create rt
    pure raw

  -- Step 7: a refresh token for a client with that grant, and none if it cannot be stored.
  unfoldable pub issue_refresh_token : Client → AuthorizationCode → String → M String
  unfolding store_refresh_token
  issue_refresh_token client code access_token_id =
      if lists client.grant_types "refresh_token"
      then (do
        stored ← attempt (store_refresh_token client code access_token_id)
        pure (text_of stored))
      else pure ""

  -- Step 8: an ID token for the scope `openid`, and none if it cannot be signed.
  unfoldable pub issue_id_token :
      Option Oidc.Service → Client → AuthorizationCode → String → M String
  issue_id_token none client code raw = pure ""
  issue_id_token (some provider) client code raw =
      if contains_scope code.scope "openid"
      then (do
        signed ← attempt (
            Oidc.generate_id_token provider code.user_id client.tenant_id client.client_id
              code.nonce raw)
        pure (text_of signed))
      else pure ""

  -- Steps 6 to 8 and the audit event.
  unfoldable pub issue_tokens : Service → Client → AuthorizationCode → M TokenResponse
  issue_tokens s client code = do
    (raw, id) ← issue_access_token client code.user_id code.scope
    refresh_token ← issue_refresh_token client code id
    id_token ← issue_id_token s.oidc_provider client code raw
    log (
        event "token_issued" client.tenant_id code.user_id "token" (
          ("client_id", text client.client_id)
          ∷ ("scope", text code.scope)
          ∷ ("has_rt", flag (not (refresh_token == "")))
          ∷ ("has_it", flag (not (id_token == "")))
          ∷ []))
    pure (record {
      access_token = raw;
      token_type = "Bearer";
      expires_in = client.access_token_lifetime;
      refresh_token = refresh_token;
      id_token = id_token;
      scope = code.scope;
    })

  unfoldable pub exchange_code_for_token : Service → TokenRequest → M TokenResponse
  exchange_code_for_token s req = do
    client ← validate_client_credentials req.client_id req.client_secret
    raise_if (not (req.grant_type == "authorization_code"))
        (new_error unsupported_grant_type "grant_type must be 'authorization_code'")
    code ← redeem_code req
    issue_tokens s client code
