-- ===== src/Oauth2/Service.antt =====
-- `Service` of internal/oauth2/service.go: the clients, the access tokens and revocation.
pub mod Credentials
use opentrusty.Store.Clients
use opentrusty.Store.AccessTokens
use opentrusty.Store.RefreshTokens
use opentrusty.Oidc
use opentrusty.Prelude.{List, Option, String, if◌then◌else◌, ltb, none, not, some, ℕ, ◌&&◌, ◌==◌}
use opentrusty.Domain.Errors.{
  invalid_client, new_error, token_expired, token_not_found, token_revoked,
}
use opentrusty.Domain.Oauth2.{AccessToken, Client}
use opentrusty.Oauth2.Client.{hash_token}
use opentrusty.World.{Env, M, new_uuid, or_raise, pure, raise_if, time_now, ◌>>=◌, ◌>>◌}

-- The configured lifetimes are kept, and no method reads them.
pub record Service : Type 0 where
  pub oidc_provider : Option Oidc.Service
  pub auth_code_lifetime : ℕ
  pub access_token_lifetime : ℕ
  pub refresh_token_lifetime : ℕ

abbrev pub or_default : String → String → String
or_default s d = if s == "" then d else s

module _ ⦃env : Env⦄ where
  -- The client as the call leaves it, since the caller reads its new identifiers.
  unfoldable pub create_client : Client → M Client
  create_client c = do
    id ← (if c.id == "" then new_uuid else pure c.id)
    cid ← (if c.client_id == "" then new_uuid else pure c.client_id)
    created ← elim c.created_at [
      | none ↦ (do now ← time_now; pure (some now))
      | some t ↦ pure (some t)
    ]
    updated ← time_now
    let c' = record c { id = id; client_id = cid; created_at = created; updated_at = some updated }
    Clients.create c'
    pure c'

  unfoldable pub list_clients : String → M (List Client)
  list_clients tenant_id = Clients.list_by_tenant tenant_id

  unfoldable pub get_client : String → M Client
  get_client id = Clients.get_by_id id

  unfoldable pub delete_client : String → M (Unit {0})
  delete_client id = Clients.delete id

  unfoldable pub update_client : Client → M (Unit {0})
  update_client c = do now ← time_now; Clients.update (record c { updated_at = some now })

  unfoldable pub validate_client_credentials : String → String → M Client
  unfolding hash_token
  validate_client_credentials client_id client_secret = do
    client ←
        or_raise (Clients.get_by_client_id client_id)
          (λ _. new_error invalid_client "invalid client credentials")
    raise_if (not client.is_active) (new_error invalid_client "client is disabled")
    raise_if
        (not (client.client_secret_hash == "")
          && not (hash_token client_secret == client.client_secret_hash))
        (new_error invalid_client "invalid client credentials")
    pure client

  unfoldable pub validate_access_token : String → M AccessToken
  unfolding hash_token
  validate_access_token token = do
    at ← or_raise (AccessTokens.get_by_token_hash (hash_token token)) (λ _. token_not_found)
    raise_if at.is_revoked token_revoked
    now ← time_now
    raise_if (ltb at.expires_at now) token_expired
    pure at

  unfoldable pub revoke_refresh_token : String → String → M (Unit {0})
  unfolding hash_token
  revoke_refresh_token token client_id = do
    rt ← or_raise (RefreshTokens.get_by_token_hash (hash_token token)) (λ _. token_not_found)
    raise_if (not (rt.client_id == client_id)) (new_error invalid_client "client_id mismatch")
    RefreshTokens.revoke (hash_token token)
