-- ===== src/Oauth2/Service/Credentials.antt =====
-- Client authentication (`ValidateClientCredentials` of internal/oauth2/service.go).
use opentrusty.Store.Clients
use opentrusty.Prelude.{
  ==_iff, Option-cases, String, arith, false, find_row, inl, inr, some, true, ◌≡◌, ◌≢◌, ◌⊎◌,
}
use opentrusty.Domain.Errors.{invalid_client}
use opentrusty.Domain.Oauth2.{Client}
use opentrusty.Oauth2.Client.{hash_token}
use opentrusty.Oauth2.Service.{validate_client_credentials}
use opentrusty.World.{Env, World, error_code, ok, tick}

-- The client is registered, active, and public or given its secret.
pub record Authenticated ⦃env : Env⦄ (w : World) (client_id secret : String) (c : Client)
    : Type 0 where
  pub registered : find_row (Clients.has_client_id client_id) w.clients ≡ some c
  pub active : c.is_active ≡ true
  pub secret_known : (c.client_secret_hash ≡ "") ⊎ (hash_token secret ≡ c.client_secret_hash)

module _ ⦃env : Env⦄ where
  -- A client that is accepted is authenticated, and only the count of calls changes.
  pub validate_client_credentials_sound :
      (client_id secret : String) (w w' : World) (c : Client)
      → validate_client_credentials client_id secret w ≡ (ok c, w')
      → Authenticated w client_id secret c × (w' ≡ tick w)
  unfolding validate_client_credentials Clients.get_by_client_id
  validate_client_credentials_sound client_id secret w w' c h =
      elim (Option-cases (find_row (Clients.has_client_id client_id) w.clients)) [
        | inl e ↦ absurd (ground arith)
        | inr (r, e) ↦
            ground (
              arith,
              ==_iff r.client_secret_hash "",
              ==_iff (hash_token secret) r.client_secret_hash,
            )
      ]

  -- An authenticated client is accepted, if the statement does not fail.
  pub validate_client_credentials_complete :
      (client_id secret : String) (w : World) (c : Client)
      → env.outage w.events ≡ false
      → Authenticated w client_id secret c
      → validate_client_credentials client_id secret w ≡ (ok c, tick w)
  unfolding validate_client_credentials Clients.get_by_client_id
  validate_client_credentials_complete client_id secret w c up a =
      ground
        (arith, ==_iff c.client_secret_hash "", ==_iff (hash_token secret) c.client_secret_hash)

  -- A registered client that is disabled, or has a secret and is given another, is refused with
  -- `invalid_client`.
  pub validate_client_credentials_refuses :
      (client_id secret : String) (w : World) (c : Client)
      → find_row (Clients.has_client_id client_id) w.clients ≡ some c
      → (c.is_active ≡ false)
        ⊎ ((c.client_secret_hash ≢ "") × (hash_token secret ≢ c.client_secret_hash))
      → error_code (validate_client_credentials client_id secret w).0 ≡ some invalid_client
  unfolding validate_client_credentials Clients.get_by_client_id
  validate_client_credentials_refuses client_id secret w c e n =
      ground
        (arith, ==_iff c.client_secret_hash "", ==_iff (hash_token secret) c.client_secret_hash)
