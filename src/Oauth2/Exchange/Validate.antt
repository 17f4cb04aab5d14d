-- ===== src/Oauth2/Exchange/Validate.antt =====
-- `ValidateAccessToken` (internal/oauth2/service.go) on the access tokens of both grants.
use opentrusty.Store.AccessTokens
use opentrusty.Prelude.{
  ==_refl, String, arith, false, find_row, find_row-append_new, if◌then◌else◌, ltb, some, suc, ◌≡◌,
}
use opentrusty.Domain.Errors.{token_expired}
use opentrusty.Domain.Oauth2.{
  AccessToken, AuthorizationCode, Client, RefreshToken, TokenRequest, TokenResponse,
}
use opentrusty.Oauth2.Client.{hash_token}
use opentrusty.Oauth2.Exchange.{exchange_code_for_token}
use opentrusty.Oauth2.Exchange.Grant.{Exchanged, exchange_code_for_token_lem}
use opentrusty.Oauth2.Exchange.Tokens.{Issued}
use opentrusty.Oauth2.Refresh.{refresh_access_token}
use opentrusty.Oauth2.Refresh.Grant.{Refreshed, refresh_access_token_lem}
use opentrusty.Oauth2.Service.{Service, validate_access_token}
use opentrusty.World.{Env, World, err, ok}

module _ ⦃env : Env⦄ where
  -- A token that was issued names its row, which is not revoked, until it expires.
  validate-Issued :
      (client : Client) (user scope raw : String) (row : AccessToken) (w w' : World)
      → Issued w w' client user scope raw row
      → env.outage w'.events ≡ false
      → (validate_access_token raw w').0
        ≡ (if ltb row.expires_at (env.clock (suc w'.events)) then err token_expired else ok row)
  unfolding validate_access_token AccessTokens.get_by_token_hash
  validate-Issued client user scope raw row w w' i up =
      let found : find_row (AccessTokens.has_hash (hash_token raw)) w'.access_tokens ≡ some row =
        rw i.stored (
          find_row-append_new (AccessTokens.has_hash (hash_token raw)) w.access_tokens row
            i.hash_new (rw i.hashed (==_refl (hash_token raw)))) in
      let live = i.not_revoked in ground arith

  -- The access token of a successful exchange is accepted, if the statement does not fail, with the
  -- user and the scope of the code and the client and the tenant of the request, until it expires.
  pub validate-exchange :
      (s : Service) (req : TokenRequest) (w w' : World) (resp : TokenResponse)
      → exchange_code_for_token s req w ≡ (ok resp, w')
      → env.outage w'.events ≡ false
      → (client : Client) × (code : AuthorizationCode) × (row : AccessToken) × Exchanged req resp w
          w' client code row
        × ((validate_access_token resp.access_token w').0 ≡ (
            if ltb row.expires_at (env.clock (suc w'.events)) then err token_expired else ok row))
  validate-exchange s req w w' resp h up =
      let (client, code, row, x) = exchange_code_for_token_lem s req w w' resp h in
      (
        client,
        code,
        row,
        x,
        validate-Issued client code.user_id code.scope resp.access_token row w w' x.issued up,
      )

  -- The same for the access token of a successful refresh.
  pub validate-refresh :
      (req : TokenRequest) (w w' : World) (resp : TokenResponse)
      → refresh_access_token req w ≡ (ok resp, w')
      → env.outage w'.events ≡ false
      → (client : Client) × (rt : RefreshToken) × (row : AccessToken) × Refreshed req resp w w'
          client rt row
        × ((validate_access_token resp.access_token w').0 ≡ (
            if ltb row.expires_at (env.clock (suc w'.events)) then err token_expired else ok row))
  validate-refresh req w w' resp h up =
      let (client, rt, row, x) = refresh_access_token_lem req w w' resp h in
      (
        client,
        rt,
        row,
        x,
        validate-Issued client rt.user_id rt.scope resp.access_token row w w' x.issued up,
      )
