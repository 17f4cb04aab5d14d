-- ===== src/Oauth2/Exchange/Checks.antt =====
-- What the code grant (`ExchangeCodeForToken` of internal/oauth2/service.go) has checked when it
-- marks a code.
use opentrusty.Store.Codes
use opentrusty.Prelude.{
  ==_iff, arith, false, find_row, inl, inr, some, suc, true, update_rows, ◌≡◌, ◌≤◌, ◌⊎◌,
}
use opentrusty.Domain.Oauth2.{AuthorizationCode, TokenRequest}
use opentrusty.Oauth2.Client.{validate_pkce}
use opentrusty.Oauth2.Exchange.{check_code, redeem_code}
use opentrusty.World.{Env, World, ok, tick}
use opentrusty.World.Laws.{Outcome-cases}

-- The request names the client and the redirect URI of the code, and proves the challenge.
pub record Matches ⦃env : Env⦄ (req : TokenRequest) (code : AuthorizationCode) : Type 0 where
  pub same_client : code.client_id ≡ req.client_id
  pub same_uri : code.redirect_uri ≡ req.redirect_uri
  pub verified :
      (code.code_challenge ≡ "")
      ⊎ (validate_pkce code.code_challenge code.code_challenge_method req.code_verifier ≡ true)

-- The tables that the grant has no business with.
pub record SameElsewhere (w w' : World) : Type 0 where
  pub clients_same : w'.clients ≡ w.clients
  pub access_tokens_same : w'.access_tokens ≡ w.access_tokens
  pub refresh_tokens_same : w'.refresh_tokens ≡ w.refresh_tokens

module _ ⦃env : Env⦄ where
  pub check_code_passes :
      (req : TokenRequest) (code : AuthorizationCode) (w w' : World)
      → check_code req code w ≡ (ok tt, w')
      → (code.is_used ≡ false)
        × (env.clock w.events ≤ code.expires_at)
        × Matches req code
        × (w' ≡ tick w)
  unfolding check_code
  check_code_passes req code w w' h = ground (
    arith,
    ==_iff code.client_id req.client_id,
    ==_iff code.redirect_uri req.redirect_uri,
    ==_iff code.code_challenge "",
  )

  -- A code that is redeemed was in the table, unused, not expired, and matched the request; every
  -- row with its text is used from then on.
  pub redeem_code_lem :
      (req : TokenRequest) (w w' : World) (code : AuthorizationCode)
      → redeem_code req w ≡ (ok code, w')
      → (find_row (Codes.has_code req.code) w.codes ≡ some code)
        × (code.is_used ≡ false)
        × (env.clock (suc w.events) ≤ code.expires_at)
        × Matches req code
        × (w'.codes
            ≡ update_rows
                (Codes.has_code req.code)
                (Codes.mark (env.clock (suc (suc w.events))))
                w.codes)
        × SameElsewhere w w'
  unfolding redeem_code Codes.get_by_code Codes.mark_as_used
  redeem_code_lem req w w' code h = elim (Outcome-cases (check_code req code (tick w))) [
    | inl (u, v, e) ↦ ground (arith, check_code_passes req code (tick w) v e)
    | inr (x, v, e) ↦ absurd (ground arith)
  ]
