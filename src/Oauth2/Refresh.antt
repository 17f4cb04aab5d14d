-- ===== src/Oauth2/Refresh.antt =====
-- `RefreshAccessToken` of internal/oauth2/service.go.
pub mod Grant
pub mod Complete
pub mod Revocation
pub mod Replay
use opentrusty.Store.RefreshTokens
use opentrusty.Prelude.{ltb, not, ◌==◌}
use opentrusty.Domain.Errors.{invalid_grant, new_error}
use opentrusty.Domain.Oauth2.{Client, RefreshToken, TokenRequest, TokenResponse}
use opentrusty.Oauth2.Client.{hash_token}
use opentrusty.Oauth2.Exchange.{issue_access_token}
use opentrusty.Oauth2.Service.{validate_client_credentials}
use opentrusty.World.{Env, M, or_raise, pure, raise_if, time_now, ◌>>=◌, ◌>>◌}

module _ ⦃env : Env⦄ where
  -- Step 2: the refresh token is found and checked.
  unfoldable pub check_refresh_token : TokenRequest → Client → M RefreshToken
  check_refresh_token req client = do
    rt ←
        or_raise (RefreshTokens.get_by_token_hash (hash_token req.refresh_token))
          (λ _. new_error invalid_grant "refresh token not found")
    raise_if rt.is_revoked (new_error invalid_grant "refresh token revoked")
    now ← time_now
    raise_if (ltb rt.expires_at now) (new_error invalid_grant "refresh token expired")
    raise_if (not (rt.client_id == client.client_id)) (new_error invalid_grant "client_id mismatch")
    pure rt

  -- The refresh token is handed back unchanged.
  unfoldable pub refresh_access_token : TokenRequest → M TokenResponse
  refresh_access_token req = do
    client ← validate_client_credentials req.client_id req.client_secret
    rt ← check_refresh_token req client
    (raw, _) ← issue_access_token client rt.user_id rt.scope
    pure (record {
      access_token = raw;
      token_type = "Bearer";
      expires_in = client.access_token_lifetime;
      refresh_token = req.refresh_token;
      id_token = "";
      scope = rt.scope;
    })
