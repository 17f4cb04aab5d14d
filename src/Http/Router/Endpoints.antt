-- ===== src/Http/Router/Endpoints.antt =====
-- The endpoints of OAuth2 leave the roles, their assignments and the clients as they are
-- (internal/transport/http/oauth2_handler.go).
use opentrusty.Http.Oauth2 as Protocols
use opentrusty.Prelude.{Option-cases, String, arith, inl, inr}
use opentrusty.Authz.Tables.{tables}
use opentrusty.Domain.Oauth2.{TokenRequest}
use opentrusty.Http.{Handler, Request}
use opentrusty.Oauth2.Authorize.{validate_authorize_request}
use opentrusty.Oauth2.Frames.{
  create_authorization_code-Keeps, exchange_code_for_token-Keeps, refresh_access_token-Keeps,
  revoke_refresh_token-Keeps, validate_authorize_request-Keeps, validate_client_credentials-Keeps,
}
use opentrusty.Oauth2.Service.{validate_client_credentials}
use opentrusty.World.{Env}
use opentrusty.World.Frame.{Keeps}
use opentrusty.World.Laws.{Outcome-cases}

module _ ⦃env : Env⦄ where
  pub authorize-Keeps : (r : Request) (user : String) → Keeps tables (Protocols.authorize r user)
  unfolding Protocols.authorize Protocols.authorize_valid
  authorize-Keeps r user w =
      let req = Protocols.authorize_request r in
      let k = validate_authorize_request-Keeps req w in
      elim (Outcome-cases (validate_authorize_request req w)) [
        | inr (x, u, e) ↦ ground arith
        | inl (client, u, e) ↦ ground (arith, create_authorization_code-Keeps req user u)
      ]

  token_grant-Keeps :
      (h : Handler) (req : TokenRequest) → Keeps tables (Protocols.token_grant h req)
  unfolding Protocols.token_grant
  token_grant-Keeps h req w = ground (
    arith,
    exchange_code_for_token-Keeps h.oauth2_service req w,
    refresh_access_token-Keeps req w,
  )

  pub token-Keeps : (h : Handler) (r : Request) → Keeps tables (Protocols.token h r)
  unfolding Protocols.token
  token-Keeps h r w = elim (Option-cases r.form) [
    | inl e ↦ ground arith
    | inr (form, e) ↦
        ground (arith, token_grant-Keeps h (Protocols.token_request form r.basic_auth) w)
  ]

  revoke_for-Keeps : (id secret raw : String) → Keeps tables (Protocols.revoke_for id secret raw)
  unfolding Protocols.revoke_for
  revoke_for-Keeps id secret raw w =
      let k = validate_client_credentials-Keeps id secret w in
      elim (Outcome-cases (validate_client_credentials id secret w)) [
        | inr (x, u, e) ↦ ground arith
        | inl (client, u, e) ↦ ground (arith, revoke_refresh_token-Keeps raw id u)
      ]

  pub revoke-Keeps : (r : Request) → Keeps tables (Protocols.revoke r)
  unfolding Protocols.revoke
  revoke-Keeps r w = elim (Option-cases r.form) [
    | inl e ↦ ground arith
    | inr (form, e) ↦
        let given = Protocols.client_credentials form r.basic_auth in
        ground (arith, revoke_for-Keeps given.0 given.1 (form "token") w)
  ]
