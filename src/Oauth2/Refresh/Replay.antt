-- ===== src/Oauth2/Refresh/Replay.antt =====
-- A refresh token that is presented after its revocation and other calls of the service
-- (internal/oauth2/service.go).
use opentrusty.Store.AccessTokens
use opentrusty.Store.Clients
use opentrusty.Store.Codes
use opentrusty.Store.RefreshTokens
use opentrusty.Oidc
use opentrusty.Prelude.{
  Bool-cases, Option, String, [], arith, false, find_row-append_old, find_row-update_rows,
  if◌then◌else◌, inl, inr, none, refl, some, subst, suc, sym, update_rows, ℕ, ◌*◌, ◌++◌, ◌+◌, ◌==◌,
  ◌∷◌, ◌≡◌, ◌≢◌, ◌⊎◌,
}
use opentrusty.Domain.Oauth2.{
  AuthorizationCode, AuthorizeRequest, Client, RefreshToken, TokenRequest, TokenResponse,
}
use opentrusty.Oauth2.Authorize.{create_authorization_code}
use opentrusty.Oauth2.Client.{generate_token, hash_token}
use opentrusty.Oauth2.Exchange.{
  check_code, exchange_code_for_token, issue_access_token, issue_id_token, issue_refresh_token,
  issue_tokens, redeem_code,
}
use opentrusty.Oauth2.Refresh.{check_refresh_token, refresh_access_token}
use opentrusty.Oauth2.Refresh.Revocation.{
  IsRevoked, refresh_after_revoke, revoke_refresh_token-IsRevoked,
}
use opentrusty.Oauth2.Service.{Service, revoke_refresh_token, validate_client_credentials}
use opentrusty.World.{Env, World, ok, second, stored_time}
use opentrusty.World.Laws.{Outcome-cases}

-- The ways in which the service changes the table of the refresh tokens.
pub data Change (w w' : World) : Type 0 where
  nothing : w'.refresh_tokens ≡ w.refresh_tokens → Change w w'
  added : (t : RefreshToken) → w'.refresh_tokens ≡ w.refresh_tokens ++ t ∷ [] → Change w w'
  marked :
      (hash : String) (now : ℕ)
      → w'.refresh_tokens
        ≡ update_rows (RefreshTokens.has_hash hash) (RefreshTokens.mark now) w.refresh_tokens
      → Change w w'

Change-IsRevoked :
    (hash : String) (w w' : World) → Change w w' → IsRevoked hash w → IsRevoked hash w'
Change-IsRevoked hash w w' (nothing e) (r, f, u) = (r, rw e f, u)
Change-IsRevoked hash w w' (added t e) (r, f, u) =
    (r, rw e (find_row-append_old (RefreshTokens.has_hash hash) w.refresh_tokens (t ∷ []) r f), u)
Change-IsRevoked hash w w' (marked other now e) (r, f, u) = (
  (if RefreshTokens.has_hash other r then RefreshTokens.mark now r else r),
  rw e (
      find_row-update_rows (RefreshTokens.has_hash hash) (RefreshTokens.has_hash other)
        (RefreshTokens.mark now) (λ q. refl) w.refresh_tokens r f),
  ground arith,
)

-- One call of the service, however it ends, or anything that leaves the refresh tokens alone.
pub data Step ⦃env : Env⦄ (w w' : World) : Type 0 where
  authorize :
      (req : AuthorizeRequest) (user : String)
      → w' ≡ (create_authorization_code req user w).1
      → Step w w'
  exchange :
      (s : Service) (req : TokenRequest) → w' ≡ (exchange_code_for_token s req w).1 → Step w w'
  refresh : (req : TokenRequest) → w' ≡ (refresh_access_token req w).1 → Step w w'
  revoke : (token client_id : String) → w' ≡ (revoke_refresh_token token client_id w).1 → Step w w'
  elsewhere : w'.refresh_tokens ≡ w.refresh_tokens → Step w w'

pub data Reach ⦃env : Env⦄ (w : World) : World → Type 0 where
  here : Reach w w
  then_step : {u v : World} → Reach w u → Step u v → Reach w v

module _ ⦃env : Env⦄ where
  authorize_keep :
      (req : AuthorizeRequest) (user : String) (w : World)
      → (create_authorization_code req user w).1.refresh_tokens ≡ w.refresh_tokens
  unfolding create_authorization_code generate_token Codes.create
  authorize_keep req user w = ground arith

  credentials_keep :
      (client_id secret : String) (w : World)
      → (validate_client_credentials client_id secret w).1.refresh_tokens ≡ w.refresh_tokens
  unfolding validate_client_credentials Clients.get_by_client_id
  credentials_keep client_id secret w = ground arith

  access_keep :
      (client : Client) (user scope : String) (w : World)
      → (issue_access_token client user scope w).1.refresh_tokens ≡ w.refresh_tokens
  unfolding issue_access_token generate_token AccessTokens.create
  access_keep client user scope w = ground arith

  check_keep :
      (req : TokenRequest) (client : Client) (w : World)
      → (check_refresh_token req client w).1.refresh_tokens ≡ w.refresh_tokens
  unfolding check_refresh_token RefreshTokens.get_by_token_hash
  check_keep req client w = ground arith

  refresh_keep :
      (req : TokenRequest) (w : World)
      → (refresh_access_token req w).1.refresh_tokens ≡ w.refresh_tokens
  unfolding refresh_access_token
  refresh_keep req w = grind (arith, credentials_keep, access_keep, check_keep)

  redeem_keep :
      (req : TokenRequest) (w : World) → (redeem_code req w).1.refresh_tokens ≡ w.refresh_tokens
  unfolding redeem_code check_code Codes.get_by_code Codes.mark_as_used
  redeem_keep req w = ground arith

  id_keep :
      (p : Option Oidc.Service) (client : Client) (code : AuthorizationCode) (raw : String)
      (w : World)
      → (issue_id_token p client code raw w).1.refresh_tokens ≡ w.refresh_tokens
  unfolding issue_id_token Oidc.generate_id_token
  id_keep none client code raw w = refl
  id_keep (some p) client code raw w = ground arith

  -- The row of the refresh token that an exchange makes.
  abbrev made : Client → AuthorizationCode → String → ℕ → RefreshToken
  made client code id e = record {
    id = env.uuid (suc e);
    tenant_id = client.tenant_id;
    token_hash = hash_token (env.base64_raw_url (env.random e 32));
    access_token_id = id;
    client_id = client.client_id;
    user_id = code.user_id;
    scope = code.scope;
    expires_at = stored_time (env.clock (suc (suc e)) + client.refresh_token_lifetime * second);
    revoked_at = none;
    is_revoked = false;
    created_at = stored_time (env.clock (suc (suc (suc e))));
  }

  stored :
      (client : Client) (code : AuthorizationCode) (id : String) (w : World)
      → let w' = (issue_refresh_token client code id w).1 in
        (w'.refresh_tokens ≡ w.refresh_tokens)
        ⊎ (w'.refresh_tokens ≡ w.refresh_tokens ++ made client code id w.events ∷ [])
  unfolding issue_refresh_token generate_token RefreshTokens.create
  stored client code id w = ground arith

  issue_Change :
      (s : Service) (client : Client) (code : AuthorizationCode) (w : World)
      → Change w (issue_tokens s client code w).1
  unfolding issue_tokens
  issue_Change s client code w =
      let k = access_keep client code.user_id code.scope w in
      elim (Outcome-cases (issue_access_token client code.user_id code.scope w)) [
        | inr (x, u, e) ↦ nothing (ground arith)
        | inl ((raw, id), u, e) ↦ elim (Outcome-cases (issue_refresh_token client code id u)) [
          | inr (x, v, f) ↦ elim (stored client code id u) [
            | inl same ↦ nothing (ground arith)
            | inr new ↦ added (made client code id u.events) (ground arith)
          ]
          | inl (t, v, f) ↦
              let k' = id_keep s.oidc_provider client code raw v in
              elim (stored client code id u) [
                | inl same ↦ nothing (ground arith)
                | inr new ↦ added (made client code id u.events) (ground arith)
              ]
        ]
      ]

  Change-same :
      {u v w w' : World}
      → u.refresh_tokens ≡ w.refresh_tokens
      → w'.refresh_tokens ≡ v.refresh_tokens
      → Change u v
      → Change w w'
  Change-same p q (nothing e) = nothing (ground arith)
  Change-same p q (added t e) = added t (ground arith)
  Change-same p q (marked hash now e) = marked hash now (ground arith)

  exchange_Change :
      (s : Service) (req : TokenRequest) (w : World) → Change w (exchange_code_for_token s req w).1
  unfolding exchange_code_for_token
  exchange_Change s req w =
      let k = credentials_keep req.client_id req.client_secret w in
      elim (Outcome-cases (validate_client_credentials req.client_id req.client_secret w)) [
        | inr (x, u, a) ↦ nothing (ground arith)
        | inl (client, u, a) ↦ elim (Bool-cases (req.grant_type == "authorization_code")) [
          | inr wrong ↦ nothing (ground arith)
          | inl right ↦
              let k' = redeem_keep req u in
              elim (Outcome-cases (redeem_code req u)) [
                | inr (x, v, b) ↦ nothing (ground arith)
                | inl (code, v, b) ↦
                    Change-same (ground arith) (ground arith) (issue_Change s client code v)
              ]
        ]
      ]

  revoked :
      (token client_id : String) (w : World)
      → let w' = (revoke_refresh_token token client_id w).1 in
        (w'.refresh_tokens ≡ w.refresh_tokens)
        ⊎ (w'.refresh_tokens
            ≡ update_rows
                (RefreshTokens.has_hash (hash_token token))
                (RefreshTokens.mark (env.clock (suc w.events)))
                w.refresh_tokens)
  unfolding revoke_refresh_token RefreshTokens.get_by_token_hash RefreshTokens.revoke
  revoked token client_id w = ground arith

  Step-Change : {w w' : World} → Step w w' → Change w w'
  Step-Change {w} (authorize req user e) = nothing (rw e (authorize_keep req user w))
  Step-Change {w} (exchange s req e) = rw e (exchange_Change s req w)
  Step-Change {w} (refresh req e) = nothing (rw e (refresh_keep req w))
  Step-Change {w} (revoke token client_id e) = rw e (elim (revoked token client_id w) [
    | inl same ↦ nothing same
    | inr new ↦ marked (hash_token token) (env.clock (suc w.events)) new
  ])
  Step-Change (elsewhere e) = nothing e

  Reach-IsRevoked :
      (hash : String) {w w' : World} → Reach w w' → IsRevoked hash w → IsRevoked hash w'
  Reach-IsRevoked hash here h = h
  Reach-IsRevoked hash (then_step {u} {v} r st) h =
      Change-IsRevoked hash u v (Step-Change st) (Reach-IsRevoked hash r h)

  -- After a refresh token was revoked, and any calls of the OAuth2 service after that, no refresh
  -- with it succeeds, whoever asks.
  pub refresh_never_after_revoke :
      (token client_id : String) (req : TokenRequest) (w w' v v' : World) (resp : TokenResponse)
      → revoke_refresh_token token client_id w ≡ (ok tt, w')
      → Reach w' v
      → req.refresh_token ≡ token
      → refresh_access_token req v ≢ (ok resp, v')
  refresh_never_after_revoke token client_id req w w' v v' resp h r e =
      let (_, _, _, gone, _) = revoke_refresh_token-IsRevoked token client_id w w' h in
      refresh_after_revoke req v v' resp (
        subst (λ t. IsRevoked (hash_token t) v) (sym e) (Reach-IsRevoked (hash_token token) r gone))
