-- ===== src/Oauth2/Frames.antt =====
-- The OAuth2 service (internal/oauth2/service.go) leaves the roles, their assignments and
-- the clients as they are.
use opentrusty.Store.AccessTokens
use opentrusty.Store.Codes
use opentrusty.Store.Clients
use opentrusty.Store.RefreshTokens
use opentrusty.Oidc
use opentrusty.Prelude.{Option, Option-cases, String, arith, find_row, inl, inr, none, refl, some}
use opentrusty.Authz.Tables.{tables}
use opentrusty.Domain.Oauth2.{AuthorizationCode, AuthorizeRequest, Client, TokenRequest}
use opentrusty.Oauth2.Authorize.{create_authorization_code, validate_authorize_request}
use opentrusty.Oauth2.Client.{generate_token}
use opentrusty.Oauth2.Exchange.{
  check_code, exchange_code_for_token, issue_access_token, issue_id_token, issue_refresh_token,
  issue_tokens, redeem_code, store_refresh_token,
}
use opentrusty.Oauth2.Refresh.{check_refresh_token, refresh_access_token}
use opentrusty.Oauth2.Service.{Service, revoke_refresh_token, validate_client_credentials}
use opentrusty.World.{Env, tick}
use opentrusty.World.Frame.{Keeps}
use opentrusty.World.Laws.{Outcome-cases}

module _ ⦃env : Env⦄ where
  pub validate_authorize_request-Keeps :
      (req : AuthorizeRequest) → Keeps tables (validate_authorize_request req)
  unfolding validate_authorize_request Clients.get_by_client_id
  validate_authorize_request-Keeps req w = ground arith

  pub create_authorization_code-Keeps :
      (req : AuthorizeRequest) (user : String) → Keeps tables (create_authorization_code req user)
  unfolding create_authorization_code generate_token Codes.create
  create_authorization_code-Keeps req user w = ground arith

  pub validate_client_credentials-Keeps :
      (id secret : String) → Keeps tables (validate_client_credentials id secret)
  unfolding validate_client_credentials Clients.get_by_client_id
  validate_client_credentials-Keeps id secret w = ground arith

  pub revoke_refresh_token-Keeps : (raw id : String) → Keeps tables (revoke_refresh_token raw id)
  unfolding revoke_refresh_token RefreshTokens.get_by_token_hash RefreshTokens.revoke
  revoke_refresh_token-Keeps raw id w = ground arith

  check_refresh_token-Keeps :
      (req : TokenRequest) (client : Client) → Keeps tables (check_refresh_token req client)
  unfolding check_refresh_token RefreshTokens.get_by_token_hash
  check_refresh_token-Keeps req client w = ground arith

  issue_access_token-Keeps :
      (client : Client) (user scope : String) → Keeps tables (issue_access_token client user scope)
  unfolding issue_access_token generate_token AccessTokens.create
  issue_access_token-Keeps client user scope w = ground arith

  pub refresh_access_token-Keeps : (req : TokenRequest) → Keeps tables (refresh_access_token req)
  unfolding refresh_access_token
  refresh_access_token-Keeps req w =
      let k = validate_client_credentials-Keeps req.client_id req.client_secret w in
      elim (Outcome-cases (validate_client_credentials req.client_id req.client_secret w)) [
        | inr (x, u, e) ↦ ground arith
        | inl (client, u, e) ↦
            let k' = check_refresh_token-Keeps req client u in
            elim (Outcome-cases (check_refresh_token req client u)) [
              | inr (x, v, f) ↦ ground arith
              | inl (rt, v, f) ↦
                  ground (arith, issue_access_token-Keeps client rt.user_id rt.scope v)
            ]
      ]

  check_code-Keeps :
      (req : TokenRequest) (code : AuthorizationCode) → Keeps tables (check_code req code)
  unfolding check_code
  check_code-Keeps req code w = ground arith

  redeem_code-Keeps : (req : TokenRequest) → Keeps tables (redeem_code req)
  unfolding redeem_code Codes.get_by_code Codes.mark_as_used
  redeem_code-Keeps req w = elim (Option-cases (find_row (Codes.has_code req.code) w.codes)) [
    | inl missing ↦ ground arith
    | inr (code, f) ↦
        let k = check_code-Keeps req code (tick w) in
        elim (Outcome-cases (check_code req code (tick w))) [
          | inr (x, v, e) ↦ ground arith
          | inl (t, v, e) ↦ ground arith
        ]
  ]

  store_refresh_token-Keeps :
      (client : Client) (code : AuthorizationCode) (id : String)
      → Keeps tables (store_refresh_token client code id)
  unfolding store_refresh_token generate_token RefreshTokens.create
  store_refresh_token-Keeps client code id w = ground arith

  issue_refresh_token-Keeps :
      (client : Client) (code : AuthorizationCode) (id : String)
      → Keeps tables (issue_refresh_token client code id)
  unfolding issue_refresh_token
  issue_refresh_token-Keeps client code id w =
      ground (arith, store_refresh_token-Keeps client code id w)

  issue_id_token-Keeps :
      (p : Option Oidc.Service) (client : Client) (code : AuthorizationCode) (raw : String)
      → Keeps tables (issue_id_token p client code raw)
  unfolding issue_id_token Oidc.generate_id_token
  issue_id_token-Keeps none client code raw w = refl
  issue_id_token-Keeps (some p) client code raw w = ground arith

  issue_tokens-Keeps :
      (s : Service) (client : Client) (code : AuthorizationCode)
      → Keeps tables (issue_tokens s client code)
  unfolding issue_tokens
  issue_tokens-Keeps s client code w =
      let k = issue_access_token-Keeps client code.user_id code.scope w in
      elim (Outcome-cases (issue_access_token client code.user_id code.scope w)) [
        | inr (x, u, e) ↦ ground arith
        | inl ((raw, id), u, e) ↦
            let k' = issue_refresh_token-Keeps client code id u in
            elim (Outcome-cases (issue_refresh_token client code id u)) [
              | inr (x, v, f) ↦ ground arith
              | inl (rt, v, f) ↦
                  ground (arith, issue_id_token-Keeps s.oidc_provider client code raw v)
            ]
      ]

  pub exchange_code_for_token-Keeps :
      (s : Service) (req : TokenRequest) → Keeps tables (exchange_code_for_token s req)
  unfolding exchange_code_for_token
  exchange_code_for_token-Keeps s req w =
      let k = validate_client_credentials-Keeps req.client_id req.client_secret w in
      elim (Outcome-cases (validate_client_credentials req.client_id req.client_secret w)) [
        | inr (x, u, e) ↦ ground arith
        | inl (client, u, e) ↦
            let k' = redeem_code-Keeps req u in
            elim (Outcome-cases (redeem_code req u)) [
              | inr (x, v, f) ↦ ground arith
              | inl (code, v, f) ↦ ground (arith, issue_tokens-Keeps s client code v)
            ]
      ]
