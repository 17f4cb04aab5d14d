-- ===== src/Http/Revocation.antt =====
-- What `Revoke` (internal/transport/http/oauth2_handler.go) does with a refresh token.
use opentrusty.Store.RefreshTokens
use opentrusty.Prelude.{
  ==_iff, Bool-cases, String, any_row-find_row, arith, eq_of_==, find_row, inl, inr, some, suc,
  ◌==◌, ◌≡◌, ◌≢◌, ◌⊎◌,
}
use opentrusty.Domain.Oauth2.{Client, RefreshToken}
use opentrusty.Http.{Request, empty_ok, reply}
use opentrusty.Http.Oauth2.{client_credentials, revoke, revoke_for}
use opentrusty.Oauth2.Client.{hash_token}
use opentrusty.Oauth2.Refresh.Revocation.{IsRevoked, revoke_refresh_token-IsRevoked}
use opentrusty.Oauth2.Service.{revoke_refresh_token}
use opentrusty.Oauth2.Service.Credentials.{Authenticated, validate_client_credentials_complete}
use opentrusty.World.{Env, World, ok, tick}
use opentrusty.World.Laws.{IsCalm, Outcome-cases}

module _ ⦃env : Env⦄ where
  revoke_succeeds :
      (raw client_id : String) (w : World) (rt : RefreshToken)
      → IsCalm env
      → find_row (RefreshTokens.has_hash (hash_token raw)) w.refresh_tokens ≡ some rt
      → rt.client_id ≡ client_id
      → (revoke_refresh_token raw client_id w).0 ≡ ok tt
  unfolding revoke_refresh_token RefreshTokens.get_by_token_hash RefreshTokens.revoke
  revoke_succeeds raw client_id w rt calm f own = ground (
    arith,
    calm w.events,
    calm (suc w.events),
    calm (suc (suc w.events)),
    ==_iff rt.client_id client_id,
    any_row-find_row (RefreshTokens.has_hash (hash_token raw)) w.refresh_tokens rt f,
  )

  revoke_refuses :
      (raw client_id : String) (w : World) (rt : RefreshToken)
      → find_row (RefreshTokens.has_hash (hash_token raw)) w.refresh_tokens ≡ some rt
      → rt.client_id ≢ client_id
      → (revoke_refresh_token raw client_id w).1.refresh_tokens ≡ w.refresh_tokens
  unfolding revoke_refresh_token RefreshTokens.get_by_token_hash
  revoke_refuses raw client_id w rt f foreign = ground (arith, ==_iff rt.client_id client_id)

  revoke_own_for :
      (client_id secret raw : String) (w : World) (c : Client) (rt : RefreshToken)
      → IsCalm env
      → Authenticated w client_id secret c
      → raw ≢ ""
      → find_row (RefreshTokens.has_hash (hash_token raw)) w.refresh_tokens ≡ some rt
      → rt.client_id ≡ client_id
      → (w' : World) × (revoke_for client_id secret raw w ≡ (ok (reply empty_ok), w'))
        × IsRevoked (hash_token raw) w'
  unfolding revoke_for
  revoke_own_for client_id secret raw w c rt calm auth some_token f own =
      let a = validate_client_credentials_complete client_id secret w c (calm w.events) auth in
      elim (Outcome-cases (revoke_refresh_token raw client_id (tick w))) [
        | inl (x, u, e) ↦ (
          u,
          ground (arith, ==_iff raw "", some_token),
          (revoke_refresh_token-IsRevoked raw client_id (tick w) u e).3,
        )
        | inr (x, u, e) ↦
            absurd (ground (arith, revoke_succeeds raw client_id (tick w) rt calm f own))
      ]

  revoke_foreign_for :
      (client_id secret raw : String) (w : World) (c : Client) (rt : RefreshToken)
      → IsCalm env
      → Authenticated w client_id secret c
      → raw ≢ ""
      → find_row (RefreshTokens.has_hash (hash_token raw)) w.refresh_tokens ≡ some rt
      → rt.client_id ≢ client_id
      → (w' : World) × (revoke_for client_id secret raw w ≡ (ok (reply empty_ok), w'))
        × (w'.refresh_tokens ≡ w.refresh_tokens)
  unfolding revoke_for
  revoke_foreign_for client_id secret raw w c rt calm auth some_token f foreign =
      let a = validate_client_credentials_complete client_id secret w c (calm w.events) auth in
      let u = (revoke_refresh_token raw client_id (tick w)).1 in
      (
        u,
        ground (arith, ==_iff raw "", some_token),
        revoke_refuses raw client_id (tick w) rt f foreign,
      )

  -- An authenticated client that presents a stored token of its own is answered with success and the
  -- token is revoked; presenting a token of another client it is answered the same, and no token
  -- changes. No statement fails.
  pub revoke_lem :
      (r : Request) (form : String → String) (w : World) (c : Client) (rt : RefreshToken)
      → IsCalm env
      → r.form ≡ some form
      → Authenticated w
          (client_credentials form r.basic_auth).0
          (client_credentials form r.basic_auth).1
          c
      → form "token" ≢ ""
      → find_row (RefreshTokens.has_hash (hash_token (form "token"))) w.refresh_tokens ≡ some rt
      → (w' : World) × (revoke r w ≡ (ok (reply empty_ok), w'))
        × (((rt.client_id ≡ (client_credentials form r.basic_auth).0)
              × IsRevoked (hash_token (form "token")) w')
            ⊎ ((rt.client_id ≢ (client_credentials form r.basic_auth).0)
                × (w'.refresh_tokens ≡ w.refresh_tokens)))
  unfolding revoke
  revoke_lem r form w c rt calm parsed auth some_token f =
      let (id, secret) = client_credentials form r.basic_auth in
      elim (Bool-cases (rt.client_id == id)) [
        | inl own ↦
            let (u, e, gone) =
              revoke_own_for id secret (form "token") w c rt calm auth some_token f
                (eq_of_== rt.client_id id own) in
            (u, ground arith, inl (eq_of_== rt.client_id id own, gone))
        | inr foreign ↦
            let (u, e, kept) =
              revoke_foreign_for id secret (form "token") w c rt calm auth some_token f
                (λ same. ground (arith, ==_iff rt.client_id id)) in
            (u, ground arith, inr ((λ same. ground (arith, ==_iff rt.client_id id)), kept))
      ]
