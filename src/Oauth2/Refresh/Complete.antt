-- ===== src/Oauth2/Refresh/Complete.antt =====
-- Requests that `RefreshAccessToken` (internal/oauth2/service.go) has to answer with a token.
use opentrusty.Store.RefreshTokens
use opentrusty.Prelude.{==_iff, arith, false, find_row, inl, inr, some, suc, ◌≡◌, ◌≤◌}
use opentrusty.Domain.Oauth2.{Client, RefreshToken, TokenRequest, TokenResponse}
use opentrusty.Oauth2.Client.{hash_token}
use opentrusty.Oauth2.Exchange.Complete.{IsFresh, issue_access_complete}
use opentrusty.Oauth2.Refresh.{check_refresh_token, refresh_access_token}
use opentrusty.Oauth2.Service.Credentials.{Authenticated, validate_client_credentials_complete}
use opentrusty.World.{Env, World, ok, tick}
use opentrusty.World.Laws.{IsCalm, Outcome-cases}

module _ ⦃env : Env⦄ where
  check_complete :
      (req : TokenRequest) (client : Client) (rt : RefreshToken) (w : World)
      → IsCalm env
      → find_row (RefreshTokens.has_hash (hash_token req.refresh_token)) w.refresh_tokens ≡ some rt
      → rt.is_revoked ≡ false
      → env.clock (suc w.events) ≤ rt.expires_at
      → rt.client_id ≡ client.client_id
      → check_refresh_token req client w ≡ (ok rt, tick (tick w))
  unfolding check_refresh_token RefreshTokens.get_by_token_hash
  check_complete req client rt w calm f good live own =
      ground (arith, calm w.events, ==_iff rt.client_id client.client_id)

  -- An authenticated client that presents a refresh token of its own, not revoked and not expired,
  -- gets an access token, if no statement fails and the new access token has an identifier and a
  -- hash that no row has.
  pub refresh_complete :
      (req : TokenRequest) (w : World) (client : Client) (rt : RefreshToken)
      → IsCalm env
      → Authenticated w req.client_id req.client_secret client
      → find_row (RefreshTokens.has_hash (hash_token req.refresh_token)) w.refresh_tokens ≡ some rt
      → rt.is_revoked ≡ false
      → env.clock (suc (suc w.events)) ≤ rt.expires_at
      → rt.client_id ≡ client.client_id
      → IsFresh (suc (suc (suc w.events))) w
      → (resp : TokenResponse) × (w' : World) × (refresh_access_token req w ≡ (ok resp, w'))
  unfolding refresh_access_token
  refresh_complete req w client rt calm auth f good live own fresh =
      let a =
        validate_client_credentials_complete req.client_id req.client_secret w client
          (calm w.events) auth in
      let b = check_complete req client rt (tick w) calm f good live own in
      let (p, u, e) =
        issue_access_complete client rt.user_id rt.scope (tick (tick (tick w))) calm fresh in
      elim (Outcome-cases (refresh_access_token req w)) [
        | inl (resp, y, h) ↦ (resp, y, h)
        | inr (x, y, h) ↦ absurd (ground arith)
      ]
