-- ===== src/Oauth2/Exchange/Tokens.antt =====
-- The tokens that the grants store (`ExchangeCodeForToken` and `RefreshAccessToken` of
-- internal/oauth2/service.go).
use opentrusty.Store.AccessTokens
use opentrusty.Store.RefreshTokens
use opentrusty.Oidc
use opentrusty.Prelude.{
  List, Option, String, [], any_row, arith, false, find_row, find_row-any_row, none, refl, some,
  suc, ◌*◌, ◌++◌, ◌+◌, ◌∷◌, ◌≡◌,
}
use opentrusty.Domain.Oauth2.{AccessToken, AuthorizationCode, Client}
use opentrusty.Oauth2.Client.{generate_token, hash_token}
use opentrusty.Oauth2.Exchange.{issue_access_token, issue_id_token, issue_refresh_token}
use opentrusty.World.{Env, World, ok, second, stored_time}

-- One new row for the token, whose hash no other row has.
pub record Issued ⦃env : Env⦄ (w w' : World) (client : Client) (user scope raw : String)
    (row : AccessToken) : Type 0 where
  pub stored : w'.access_tokens ≡ w.access_tokens ++ row ∷ []
  pub hash_new : find_row (AccessTokens.has_hash (hash_token raw)) w.access_tokens ≡ none
  pub hashed : row.token_hash ≡ hash_token raw
  pub of_user : row.user_id ≡ user
  pub of_scope : row.scope ≡ scope
  pub of_client : row.client_id ≡ client.client_id
  pub of_tenant : row.tenant_id ≡ client.tenant_id
  pub not_revoked : row.is_revoked ≡ false

module _ ⦃env : Env⦄ where
  no_hash :
      (t : AccessToken) (rs : List AccessToken)
      → any_row (AccessTokens.conflicts t) rs ≡ false
      → find_row (AccessTokens.has_hash t.token_hash) rs ≡ none
  no_hash t rs h =
      find_row-any_row (AccessTokens.has_hash t.token_hash) (AccessTokens.conflicts t)
        (λ r e. ground arith) rs h

  pub issue_access_token_lem :
      (client : Client) (user scope : String) (w w' : World) (raw id : String)
      → issue_access_token client user scope w ≡ (ok (raw, id), w')
      → (row : AccessToken) × Issued w w' client user scope raw row
        × (row.expires_at
            ≡ stored_time (env.clock (suc (suc w.events)) + client.access_token_lifetime * second))
        × (w'.codes ≡ w.codes)
        × (w'.clients ≡ w.clients)
        × (w'.refresh_tokens ≡ w.refresh_tokens)
  unfolding issue_access_token AccessTokens.create generate_token
  issue_access_token_lem client user scope w w' raw id h =
      let row : AccessToken = record {
        id = env.uuid (suc w.events);
        tenant_id = client.tenant_id;
        token_hash = hash_token (env.base64_raw_url (env.random w.events 32));
        client_id = client.client_id;
        user_id = user;
        scope = scope;
        token_type = "Bearer";
        expires_at =
            stored_time (env.clock (suc (suc w.events)) + client.access_token_lifetime * second);
        revoked_at = none;
        is_revoked = false;
        created_at = stored_time (env.clock (suc (suc (suc w.events))));
      } in
      (
        row,
        ground (arith, no_hash row w.access_tokens),
        refl,
        ground arith,
        ground arith,
        ground arith,
      )

  -- A refresh token that cannot be stored is left out, and nothing else is touched.
  pub issue_refresh_token_keeps :
      (client : Client) (code : AuthorizationCode) (id : String) (w w' : World) (r : String)
      → issue_refresh_token client code id w ≡ (ok r, w')
      → (w'.codes ≡ w.codes) × (w'.clients ≡ w.clients) × (w'.access_tokens ≡ w.access_tokens)
  unfolding issue_refresh_token RefreshTokens.create generate_token
  issue_refresh_token_keeps client code id w w' r h = ground arith

  pub issue_id_token_keeps :
      (p : Option Oidc.Service) (client : Client) (code : AuthorizationCode) (raw : String)
      (w w' : World) (t : String)
      → issue_id_token p client code raw w ≡ (ok t, w')
      → (w'.codes ≡ w.codes)
        × (w'.clients ≡ w.clients)
        × (w'.access_tokens ≡ w.access_tokens)
        × (w'.refresh_tokens ≡ w.refresh_tokens)
  unfolding issue_id_token Oidc.generate_id_token
  issue_id_token_keeps none client code raw w w' t h = ground arith
  issue_id_token_keeps (some p) client code raw w w' t h = ground arith
