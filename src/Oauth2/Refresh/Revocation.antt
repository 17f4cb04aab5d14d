-- ===== src/Oauth2/Refresh/Revocation.antt =====
-- Revocation of refresh tokens (`RevokeRefreshToken` of internal/oauth2/service.go).
use opentrusty.Store.RefreshTokens
use opentrusty.Prelude.{
  ==_iff, Option-cases, String, arith, find_row, find_row-update_rows, find_row-update_rows_other,
  find_row_passes, if◌then◌else◌, inl, inr, refl, some, suc, true, update_rows, ◌≡◌, ◌≢◌,
}
use opentrusty.Domain.Oauth2.{RefreshToken, TokenRequest, TokenResponse}
use opentrusty.Oauth2.Client.{hash_token}
use opentrusty.Oauth2.Refresh.{refresh_access_token}
use opentrusty.Oauth2.Refresh.Grant.{refresh_access_token_lem}
use opentrusty.Oauth2.Service.{revoke_refresh_token}
use opentrusty.World.{Env, World, ok}

abbrev pub IsRevoked : String → World → Type 0
IsRevoked hash w =
    (r : RefreshToken) × (find_row (RefreshTokens.has_hash hash) w.refresh_tokens ≡ some r)
    × (r.is_revoked ≡ true)

module _ ⦃env : Env⦄ where
  -- A revocation that succeeds was asked for a token of that client; right after it the token is
  -- revoked, and no other token has changed.
  pub revoke_refresh_token-IsRevoked :
      (token client_id : String) (w w' : World)
      → revoke_refresh_token token client_id w ≡ (ok tt, w')
      → (r : RefreshToken) × (find_row (RefreshTokens.has_hash (hash_token token)) w.refresh_tokens
          ≡ some r)
        × (r.client_id ≡ client_id)
        × IsRevoked (hash_token token) w'
        × ((other : String)
            → other ≢ hash_token token
            → find_row (RefreshTokens.has_hash other) w'.refresh_tokens
              ≡ find_row (RefreshTokens.has_hash other) w.refresh_tokens)
  unfolding revoke_refresh_token RefreshTokens.get_by_token_hash RefreshTokens.revoke
  revoke_refresh_token-IsRevoked token client_id w w' h =
      elim (Option-cases (find_row (RefreshTokens.has_hash (hash_token token)) w.refresh_tokens)) [
        | inl e ↦ absurd (ground arith)
        | inr (r, e) ↦
            let hash = hash_token token in
            let t = env.clock (suc w.events) in
            let change : w'.refresh_tokens
                ≡ update_rows (RefreshTokens.has_hash hash) (RefreshTokens.mark t)
                    w.refresh_tokens =
              ground arith in
            (
              r,
              e,
              ground (arith, ==_iff r.client_id client_id),
              (
                (if RefreshTokens.has_hash hash r then RefreshTokens.mark t r else r),
                rw change (
                    find_row-update_rows (RefreshTokens.has_hash hash) (RefreshTokens.has_hash hash)
                      (RefreshTokens.mark t) (λ q. refl) w.refresh_tokens r e),
                ground (arith, find_row_passes (RefreshTokens.has_hash hash) w.refresh_tokens r e),
              ),
              λ other ne. rw change (
                  find_row-update_rows_other (RefreshTokens.has_hash other)
                    (RefreshTokens.has_hash hash) (RefreshTokens.mark t) (λ q. refl)
                    (λ q m. ground (arith, ==_iff q.token_hash hash, ==_iff q.token_hash other))
                    w.refresh_tokens),
            )
      ]

  -- A revoked token is refused by the refresh grant, whoever presents it.
  pub refresh_after_revoke :
      (req : TokenRequest) (w w' : World) (resp : TokenResponse)
      → IsRevoked (hash_token req.refresh_token) w
      → refresh_access_token req w ≢ (ok resp, w')
  refresh_after_revoke req w w' resp (r, f, rev) h =
      let (client, rt, row, x) = refresh_access_token_lem req w w' resp h in
      let same = x.found in ground arith
