-- ===== src/Oauth2/Exchange/Grant.antt =====
-- The code grant as a whole (`ExchangeCodeForToken` of internal/oauth2/service.go).
use opentrusty.Store.Codes
use opentrusty.Prelude.{==_iff, arith, false, find_row, inl, inr, some, suc, update_rows, ◌≡◌, ◌≤◌}
use opentrusty.Domain.Oauth2.{AccessToken, AuthorizationCode, Client, TokenRequest, TokenResponse}
use opentrusty.Oauth2.Exchange.{
  exchange_code_for_token, issue_access_token, issue_id_token, issue_refresh_token, issue_tokens,
  redeem_code,
}
use opentrusty.Oauth2.Exchange.Checks.{Matches, redeem_code_lem}
use opentrusty.Oauth2.Exchange.Tokens.{
  Issued, issue_access_token_lem, issue_id_token_keeps, issue_refresh_token_keeps,
}
use opentrusty.Oauth2.Service.{Service, validate_client_credentials}
use opentrusty.Oauth2.Service.Credentials.{Authenticated, validate_client_credentials_sound}
use opentrusty.World.{Env, World, ok}
use opentrusty.World.Laws.{Outcome-cases}

-- What a successful exchange means, by the tables before and after it.
pub record Exchanged ⦃env : Env⦄ (req : TokenRequest) (resp : TokenResponse) (w w' : World)
    (client : Client) (code : AuthorizationCode) (row : AccessToken) : Type 0 where
  pub authenticated : Authenticated w req.client_id req.client_secret client
  pub grant : req.grant_type ≡ "authorization_code"
  pub found : find_row (Codes.has_code req.code) w.codes ≡ some code
  pub unused : code.is_used ≡ false
  pub live : env.clock (suc (suc w.events)) ≤ code.expires_at
  pub matches : Matches req code
  pub spent :
      w'.codes
      ≡ update_rows
          (Codes.has_code req.code)
          (Codes.mark (env.clock (suc (suc (suc w.events)))))
          w.codes
  pub issued : Issued w w' client code.user_id code.scope resp.access_token row
  pub scope_kept : resp.scope ≡ code.scope

module _ ⦃env : Env⦄ where
  issue_tokens_lem :
      (s : Service) (client : Client) (code : AuthorizationCode) (w w' : World)
      (resp : TokenResponse)
      → issue_tokens s client code w ≡ (ok resp, w')
      → (row : AccessToken) × Issued w w' client code.user_id code.scope resp.access_token row
        × (w'.codes ≡ w.codes)
        × (w'.clients ≡ w.clients)
        × (resp.scope ≡ code.scope)
  unfolding issue_tokens
  issue_tokens_lem s client code w w' resp h =
      elim (Outcome-cases (issue_access_token client code.user_id code.scope w)) [
        | inl ((raw, id), u, a) ↦ elim (Outcome-cases (issue_refresh_token client code id u)) [
          | inl (r, v, b) ↦
              elim (Outcome-cases (issue_id_token s.oidc_provider client code raw v)) [
                | inl (t, x, c) ↦
                    let (row, i, _, a1, a2, a3) =
                      issue_access_token_lem client code.user_id code.scope w u raw id a in
                    let (b1, b2, b3) = issue_refresh_token_keeps client code id u v r b in
                    let (c1, c2, c3, c4) =
                      issue_id_token_keeps s.oidc_provider client code raw v x t c in
                    (row, ground arith, ground arith, ground arith, ground arith)
                | inr (e, x, c) ↦ absurd (ground arith)
              ]
          | inr (e, v, b) ↦ absurd (ground arith)
        ]
        | inr (e, u, a) ↦ absurd (ground arith)
      ]

  -- A successful exchange was asked by an authenticated client for an unused, unexpired code of
  -- that client, with its redirect URI and, if the code has a challenge, a verifier of it; it marks
  -- the code as used and stores one access token, for the user, the scope, the client and the
  -- tenant.
  pub exchange_code_for_token_lem :
      (s : Service) (req : TokenRequest) (w w' : World) (resp : TokenResponse)
      → exchange_code_for_token s req w ≡ (ok resp, w')
      → (client : Client) × (code : AuthorizationCode) × (row : AccessToken) × Exchanged req resp w
          w' client code row
  unfolding exchange_code_for_token
  exchange_code_for_token_lem s req w w' resp h =
      elim (Outcome-cases (validate_client_credentials req.client_id req.client_secret w)) [
        | inl (client, u, a) ↦ elim (Outcome-cases (redeem_code req u)) [
          | inl (code, v, b) ↦
              let (auth, eu) =
                validate_client_credentials_sound req.client_id req.client_secret w u client a in
              let (row, i, c, d, e) = issue_tokens_lem s client code v w' resp (ground arith) in
              let r = redeem_code_lem req u v code b in
              (client, code, row, ground (arith, ==_iff req.grant_type "authorization_code"))
          | inr (e, v, b) ↦ absurd (ground arith)
        ]
        | inr (e, u, a) ↦ absurd (ground arith)
      ]
