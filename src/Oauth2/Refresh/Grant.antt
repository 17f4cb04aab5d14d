-- ===== src/Oauth2/Refresh/Grant.antt =====
-- The refresh grant (`RefreshAccessToken` of internal/oauth2/service.go).
use opentrusty.Store.RefreshTokens
use opentrusty.Prelude.{==_iff, Option-cases, arith, false, find_row, inl, inr, some, suc, ◌≡◌, ◌≤◌}
use opentrusty.Domain.Oauth2.{AccessToken, Client, RefreshToken, TokenRequest, TokenResponse}
use opentrusty.Oauth2.Client.{hash_token}
use opentrusty.Oauth2.Exchange.{issue_access_token}
use opentrusty.Oauth2.Exchange.Tokens.{Issued, issue_access_token_lem}
use opentrusty.Oauth2.Refresh.{check_refresh_token, refresh_access_token}
use opentrusty.Oauth2.Service.{validate_client_credentials}
use opentrusty.Oauth2.Service.Credentials.{Authenticated, validate_client_credentials_sound}
use opentrusty.World.{Env, World, ok, tick}
use opentrusty.World.Laws.{Outcome-cases}

-- What a successful refresh means, by the tables before and after it.
pub record Refreshed ⦃env : Env⦄ (req : TokenRequest) (resp : TokenResponse) (w w' : World)
    (client : Client) (rt : RefreshToken) (row : AccessToken) : Type 0 where
  pub authenticated : Authenticated w req.client_id req.client_secret client
  pub found :
      find_row (RefreshTokens.has_hash (hash_token req.refresh_token)) w.refresh_tokens ≡ some rt
  pub not_revoked : rt.is_revoked ≡ false
  pub live : env.clock (suc (suc w.events)) ≤ rt.expires_at
  pub own : rt.client_id ≡ client.client_id
  pub issued : Issued w w' client rt.user_id rt.scope resp.access_token row
  pub same_token : resp.refresh_token ≡ req.refresh_token
  pub kept : w'.refresh_tokens ≡ w.refresh_tokens

module _ ⦃env : Env⦄ where
  pub check_refresh_token_lem :
      (req : TokenRequest) (client : Client) (w w' : World) (rt : RefreshToken)
      → check_refresh_token req client w ≡ (ok rt, w')
      → (find_row (RefreshTokens.has_hash (hash_token req.refresh_token)) w.refresh_tokens
          ≡ some rt)
        × (rt.is_revoked ≡ false)
        × (env.clock (suc w.events) ≤ rt.expires_at)
        × (rt.client_id ≡ client.client_id)
        × (w' ≡ tick (tick w))
  unfolding check_refresh_token RefreshTokens.get_by_token_hash
  check_refresh_token_lem req client w w' rt h =
      elim (Option-cases
        (find_row (RefreshTokens.has_hash (hash_token req.refresh_token)) w.refresh_tokens)) [
          | inl e ↦ absurd (ground arith)
          | inr (r, e) ↦ ground (arith, ==_iff r.client_id client.client_id)
        ]

  -- A successful refresh was asked by an authenticated client with a stored, unexpired refresh token
  -- of its own that is not revoked; it stores one access token for the user and the scope of the
  -- refresh token, and hands that token back, unchanged.
  pub refresh_access_token_lem :
      (req : TokenRequest) (w w' : World) (resp : TokenResponse)
      → refresh_access_token req w ≡ (ok resp, w')
      → (client : Client) × (rt : RefreshToken) × (row : AccessToken) × Refreshed req resp w w'
          client rt row
  unfolding refresh_access_token
  refresh_access_token_lem req w w' resp h =
      elim (Outcome-cases (validate_client_credentials req.client_id req.client_secret w)) [
        | inl (client, u, a) ↦ elim (Outcome-cases (check_refresh_token req client u)) [
          | inl (rt, v, b) ↦
              elim (Outcome-cases (issue_access_token client rt.user_id rt.scope v)) [
                | inl ((raw, id), x, c) ↦
                    let (auth, eu) =
                      validate_client_credentials_sound req.client_id req.client_secret w u client
                        a in
                    let r = check_refresh_token_lem req client u v rt b in
                    let (row, i, t, a1, a2, a3) =
                      issue_access_token_lem client rt.user_id rt.scope v x raw id c in
                    (client, rt, row, ground arith)
                | inr (e, x, c) ↦ absurd (ground arith)
              ]
          | inr (e, v, b) ↦ absurd (ground arith)
        ]
        | inr (e, u, a) ↦ absurd (ground arith)
      ]
