-- ===== src/Oauth2/Exchange/Changes.antt =====
-- How each call of internal/oauth2/service.go changes the table of codes.
use opentrusty.Store.AccessTokens
use opentrusty.Store.Clients
use opentrusty.Store.Codes
use opentrusty.Store.RefreshTokens
use opentrusty.Oidc
use opentrusty.Prelude.{
  Bool-cases, Option, String, [], arith, inl, inr, none, refl, some, suc, update_rows, ℕ, ◌++◌,
  ◌==◌, ◌∷◌, ◌≡◌, ◌⊎◌,
}
use opentrusty.Domain.Oauth2.{AuthorizationCode, AuthorizeRequest, Client, TokenRequest}
use opentrusty.Oauth2.Authorize.{create_authorization_code, new_code}
use opentrusty.Oauth2.Client.{generate_token}
use opentrusty.Oauth2.Exchange.{
  check_code, exchange_code_for_token, issue_access_token, issue_id_token, issue_refresh_token,
  issue_tokens, redeem_code,
}
use opentrusty.Oauth2.Refresh.{check_refresh_token, refresh_access_token}
use opentrusty.Oauth2.Service.{Service, revoke_refresh_token, validate_client_credentials}
use opentrusty.World.{Env, World}
use opentrusty.World.Laws.{Outcome-cases}

-- The ways in which the service changes the table of codes.
pub data Change (w w' : World) : Type 0 where
  nothing : w'.codes ≡ w.codes → Change w w'
  added : (c : AuthorizationCode) → w'.codes ≡ w.codes ++ c ∷ [] → Change w w'
  marked :
      (code : String) (t : ℕ)
      → w'.codes ≡ update_rows (Codes.has_code code) (Codes.mark t) w.codes
      → Change w w'

module _ ⦃env : Env⦄ where
  authorize_codes :
      (req : AuthorizeRequest) (user : String) (w : World)
      → let w' = (create_authorization_code req user w).1 in
        let e = w.events in
        (w'.codes ≡ w.codes)
        ⊎ (w'.codes
            ≡ w.codes
              ++ Codes.to_row (
                  new_code req user
                    (env.uuid e)
                    (env.base64_raw_url (env.random (suc e) 32))
                    (env.clock (suc (suc e)))
                    (env.clock (suc (suc (suc e)))))
                ∷ [])
  unfolding create_authorization_code generate_token Codes.create
  authorize_codes req user w = ground arith

  pub authorize_Change :
      (req : AuthorizeRequest) (user : String) (w : World)
      → Change w (create_authorization_code req user w).1
  authorize_Change req user w = elim (authorize_codes req user w) [
    | inl e ↦ nothing e
    | inr e ↦ added _ e
  ]

  credentials_keep :
      (client_id secret : String) (w : World)
      → (validate_client_credentials client_id secret w).1.codes ≡ w.codes
  unfolding validate_client_credentials Clients.get_by_client_id
  credentials_keep client_id secret w = ground arith

  access_keep :
      (client : Client) (user scope : String) (w : World)
      → (issue_access_token client user scope w).1.codes ≡ w.codes
  unfolding issue_access_token generate_token AccessTokens.create
  access_keep client user scope w = ground arith

  check_refresh_keep :
      (req : TokenRequest) (client : Client) (w : World)
      → (check_refresh_token req client w).1.codes ≡ w.codes
  unfolding check_refresh_token RefreshTokens.get_by_token_hash
  check_refresh_keep req client w = ground arith

  pub refresh_keep :
      (req : TokenRequest) (w : World) → (refresh_access_token req w).1.codes ≡ w.codes
  unfolding refresh_access_token
  refresh_keep req w = grind (arith, credentials_keep, access_keep, check_refresh_keep)

  pub revoke_keep :
      (token client_id : String) (w : World)
      → (revoke_refresh_token token client_id w).1.codes ≡ w.codes
  unfolding revoke_refresh_token RefreshTokens.get_by_token_hash RefreshTokens.revoke
  revoke_keep token client_id w = ground arith

  refresh_token_keep :
      (client : Client) (code : AuthorizationCode) (id : String) (w : World)
      → (issue_refresh_token client code id w).1.codes ≡ w.codes
  unfolding issue_refresh_token generate_token RefreshTokens.create
  refresh_token_keep client code id w = ground arith

  id_token_keep :
      (p : Option Oidc.Service) (client : Client) (code : AuthorizationCode) (raw : String)
      (w : World)
      → (issue_id_token p client code raw w).1.codes ≡ w.codes
  unfolding issue_id_token Oidc.generate_id_token
  id_token_keep none client code raw w = refl
  id_token_keep (some p) client code raw w = ground arith

  issue_keep :
      (s : Service) (client : Client) (code : AuthorizationCode) (w : World)
      → (issue_tokens s client code w).1.codes ≡ w.codes
  unfolding issue_tokens
  issue_keep s client code w = grind (arith, access_keep, refresh_token_keep, id_token_keep)

  check_keep :
      (req : TokenRequest) (code : AuthorizationCode) (w : World)
      → (check_code req code w).1.codes ≡ w.codes
  unfolding check_code
  check_keep req code w = ground arith

  get_keep : (code : String) (w : World) → (Codes.get_by_code code w).1.codes ≡ w.codes
  unfolding Codes.get_by_code
  get_keep code w = ground arith

  mark_codes :
      (code : String) (w : World)
      → let w' = (Codes.mark_as_used code w).1 in
        (w'.codes ≡ w.codes)
        ⊎ (w'.codes ≡ update_rows (Codes.has_code code) (Codes.mark (env.clock w.events)) w.codes)
  unfolding Codes.mark_as_used
  mark_codes code w = ground arith

  redeem_Change : (req : TokenRequest) (w : World) → Change w (redeem_code req w).1
  unfolding redeem_code
  redeem_Change req w = elim (Outcome-cases (Codes.get_by_code req.code w)) [
    | inr (e, u, a) ↦ nothing (ground (arith, get_keep req.code w))
    | inl (code, u, a) ↦ elim (Outcome-cases (check_code req code u)) [
      | inr (e, v, b) ↦ nothing (ground (arith, get_keep req.code w, check_keep req code u))
      | inl (x, v, b) ↦ elim (mark_codes req.code v) [
        | inl m ↦ nothing (ground (arith, get_keep req.code w, check_keep req code u))
        | inr m ↦
            marked req.code (env.clock v.events)
              (ground (arith, get_keep req.code w, check_keep req code u))
      ]
    ]
  ]

  Change-same :
      {u v w w' : World} → u.codes ≡ w.codes → w'.codes ≡ v.codes → Change u v → Change w w'
  Change-same p q (nothing e) = nothing (ground arith)
  Change-same p q (added c e) = added c (ground arith)
  Change-same p q (marked code t e) = marked code t (ground arith)

  pub exchange_Change :
      (s : Service) (req : TokenRequest) (w : World) → Change w (exchange_code_for_token s req w).1
  unfolding exchange_code_for_token
  exchange_Change s req w =
      let k = credentials_keep req.client_id req.client_secret w in
      elim (Outcome-cases (validate_client_credentials req.client_id req.client_secret w)) [
        | inr (e, u, a) ↦ nothing (ground arith)
        | inl (client, u, a) ↦ elim (Bool-cases (req.grant_type == "authorization_code")) [
          | inr wrong ↦ nothing (ground arith)
          | inl right ↦ elim (Outcome-cases (redeem_code req u)) [
            | inr (e, v, b) ↦ Change-same (ground arith) (ground arith) (redeem_Change req u)
            | inl (code, v, b) ↦
                Change-same (ground arith) (ground (arith, issue_keep s client code v))
                  (redeem_Change req u)
          ]
        ]
      ]
