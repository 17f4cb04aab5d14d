-- ===== src/Http/Tokens.antt =====
-- What `Token` (internal/transport/http/oauth2_handler.go) answers with tokens.
use opentrusty.Prelude.{==_iff, String, arith, inl, inr, some, ◌≡◌, ◌≢◌}
use opentrusty.Domain.Errors.{Error}
use opentrusty.Domain.Oauth2.{TokenResponse}
use opentrusty.Http.{Handler, Request, reply, tokens}
use opentrusty.Http.Oauth2.{respond_oauth_error, token, token_grant, token_request}
use opentrusty.Oauth2.Exchange.{exchange_code_for_token}
use opentrusty.Oauth2.Exchange.SingleUse.{Reach, exchange_once}
use opentrusty.World.{Env, World, ok}
use opentrusty.World.Laws.{Outcome-cases}

module _ ⦃env : Env⦄ where
  error_no_tokens : (e : Error) (resp : TokenResponse) → respond_oauth_error e ≢ reply (tokens resp)
  unfolding respond_oauth_error
  error_no_tokens e resp h = ground arith

  token-exchange :
      (h : Handler) (r : Request) (form : String → String) (w w' : World) (resp : TokenResponse)
      → r.form ≡ some form
      → form "grant_type" ≡ "authorization_code"
      → token h r w ≡ (ok (reply (tokens resp)), w')
      → exchange_code_for_token h.oauth2_service (token_request form r.basic_auth) w ≡ (ok resp, w')
  unfolding token token_grant token_request
  token-exchange h r form w w' resp parsed grant e =
      elim (Outcome-cases
        (exchange_code_for_token h.oauth2_service (token_request form r.basic_auth) w)) [
          | inl (x, u, f) ↦ ground (arith, ==_iff (form "grant_type") "authorization_code")
          | inr (x, u, f) ↦ absurd (
              ground
                (arith, ==_iff (form "grant_type") "authorization_code", error_no_tokens x resp))
        ]

  -- The token endpoint answers with tokens for a code once: after that, and any calls of the OAuth2
  -- service, it gives none for the same code, whoever asks.
  pub token_once :
      (h h₂ : Handler) (r r₂ : Request) (form form₂ : String → String) (w w' v v' : World)
      (resp resp₂ : TokenResponse)
      → r.form ≡ some form
      → r₂.form ≡ some form₂
      → form "grant_type" ≡ "authorization_code"
      → form₂ "grant_type" ≡ "authorization_code"
      → form₂ "code" ≡ form "code"
      → token h r w ≡ (ok (reply (tokens resp)), w')
      → Reach w' v
      → token h₂ r₂ v ≢ (ok (reply (tokens resp₂)), v')
  unfolding token_request
  token_once h h₂ r r₂ form form₂ w w' v v' resp resp₂ p p₂ g g₂ same e reach e₂ =
      exchange_once h.oauth2_service h₂.oauth2_service (token_request form r.basic_auth)
        (token_request form₂ r₂.basic_auth) w w' v v' resp resp₂
        (token-exchange h r form w w' resp p g e) reach same
        (token-exchange h₂ r₂ form₂ v v' resp₂ p₂ g₂ e₂)
