-- ===== src/Oauth2/Exchange/Complete.antt =====
-- Requests that `ExchangeCodeForToken` (internal/oauth2/service.go) has to answer with tokens.
use opentrusty.Store.Codes
use opentrusty.Store.AccessTokens
use opentrusty.Oidc
use opentrusty.Prelude.{
  ==_iff, Bool-cases, Option, String, any_row, any_row-find_row, arith, false, find_row, inl, inr,
  none, refl, some, suc, update_rows, ℕ, ◌==◌, ◌||◌, ◌≡◌, ◌≤◌,
}
use opentrusty.Domain.Oauth2.{AuthorizationCode, Client, TokenRequest, TokenResponse}
use opentrusty.Oauth2.Client.{contains_scope, generate_token, hash_token, lists}
use opentrusty.Oauth2.Exchange.{
  check_code, exchange_code_for_token, issue_access_token, issue_id_token, issue_refresh_token,
  issue_tokens, redeem_code, store_refresh_token,
}
use opentrusty.Oauth2.Exchange.Checks.{Matches}
use opentrusty.Oauth2.Service.{Service}
use opentrusty.Oauth2.Service.Credentials.{Authenticated, validate_client_credentials_complete}
use opentrusty.World.{Env, World, ok, tick}
use opentrusty.World.Laws.{IsCalm, Outcome-cases}

-- The new access token has an identifier and a hash that no row has, when its random bytes are those
-- of the call n.
abbrev pub IsFresh : ⦃env : Env⦄ → ℕ → World → Type 0
IsFresh ⦃env = env⦄ n w =
    any_row
      (λ r.
        r.id == env.uuid (suc n)
        || r.token_hash == hash_token (env.base64_raw_url (env.random n 32)))
      w.access_tokens
    ≡ false

module _ ⦃env : Env⦄ where
  pub redeem_complete :
      (req : TokenRequest) (code : AuthorizationCode) (w : World)
      → IsCalm env
      → find_row (Codes.has_code req.code) w.codes ≡ some code
      → code.is_used ≡ false
      → env.clock (suc w.events) ≤ code.expires_at
      → Matches req code
      → (w' : World) × (redeem_code req w ≡ (ok code, w'))
        × (w'.events ≡ suc (suc (suc (suc w.events))))
        × (w'.access_tokens ≡ w.access_tokens)
  unfolding redeem_code check_code Codes.get_by_code Codes.mark_as_used
  redeem_complete req code w calm f unused live m =
      let some_code = any_row-find_row (Codes.has_code req.code) w.codes code f in
      let v = tick (tick (tick (tick w))) in
      let t = env.clock (suc (suc w.events)) in
      (
        record v { codes = update_rows (Codes.has_code req.code) (Codes.mark t) w.codes },
        ground (
          arith,
          calm w.events,
          calm (suc (suc (suc w.events))),
          ==_iff code.client_id req.client_id,
          ==_iff code.redirect_uri req.redirect_uri,
          ==_iff code.code_challenge "",
        ),
        refl,
        refl,
      )

  pub issue_access_complete :
      (client : Client) (user scope : String) (w : World)
      → IsCalm env
      → IsFresh w.events w
      → (p : String × String) × (w' : World) × (issue_access_token client user scope w ≡ (ok p, w'))
  unfolding issue_access_token generate_token AccessTokens.create
  issue_access_complete client user scope w calm fresh =
      let up = calm (suc (suc (suc (suc w.events)))) in
      elim (Outcome-cases (issue_access_token client user scope w)) [
        | inl (p, u, e) ↦ (p, u, e)
        | inr (x, u, e) ↦ absurd (ground arith)
      ]

  issue_refresh_complete :
      (client : Client) (code : AuthorizationCode) (id : String) (w : World)
      → (t : String) × (w' : World) × (issue_refresh_token client code id w ≡ (ok t, w'))
  unfolding issue_refresh_token
  issue_refresh_complete client code id w =
      elim (Bool-cases (lists client.grant_types "refresh_token")) [
        | inr no_grant ↦ ("", w, ground arith)
        | inl grant ↦ elim (Outcome-cases (store_refresh_token client code id w)) [
          | inl (t, u, e) ↦ (t, u, ground arith)
          | inr (x, u, e) ↦ ("", u, ground arith)
        ]
      ]

  issue_id_complete :
      (p : Option Oidc.Service) (client : Client) (code : AuthorizationCode) (raw : String)
      (w : World)
      → (t : String) × (w' : World) × (issue_id_token p client code raw w ≡ (ok t, w'))
  unfolding issue_id_token
  issue_id_complete none client code raw w = ("", w, refl)
  issue_id_complete (some p) client code raw w =
      elim (Bool-cases (contains_scope code.scope "openid")) [
        | inr no_scope ↦ ("", w, ground arith)
        | inl openid ↦
            elim (Outcome-cases (
              Oidc.generate_id_token p code.user_id client.tenant_id client.client_id code.nonce raw
                w)) [ inl (t, u, e) ↦ (t, u, ground arith) | inr (x, u, e) ↦ ("", u, ground arith) ]
      ]

  issue_tokens_complete :
      (s : Service) (client : Client) (code : AuthorizationCode) (w : World)
      → IsCalm env
      → IsFresh w.events w
      → (resp : TokenResponse) × (w' : World) × (issue_tokens s client code w ≡ (ok resp, w'))
  unfolding issue_tokens
  issue_tokens_complete s client code w calm fresh =
      let ((raw, id), u, e) = issue_access_complete client code.user_id code.scope w calm fresh in
      let (rt, v, f) = issue_refresh_complete client code id u in
      let (it, x, g) = issue_id_complete s.oidc_provider client code raw v in
      elim (Outcome-cases (issue_tokens s client code w)) [
        | inl (resp, y, h) ↦ (resp, y, h)
        | inr (a, y, h) ↦ absurd (ground arith)
      ]

  -- An authenticated client that presents an unused code before it expires, with the redirect URI
  -- and, if the code has a challenge, a verifier of it, gets its tokens, if no statement fails and
  -- the new access token has an identifier and a hash that no row has. A code without a challenge
  -- needs no verifier, also from a public client.
  pub exchange_complete :
      (s : Service) (req : TokenRequest) (w : World) (client : Client) (code : AuthorizationCode)
      → IsCalm env
      → Authenticated w req.client_id req.client_secret client
      → req.grant_type ≡ "authorization_code"
      → find_row (Codes.has_code req.code) w.codes ≡ some code
      → code.is_used ≡ false
      → env.clock (suc (suc w.events)) ≤ code.expires_at
      → Matches req code
      → IsFresh (suc (suc (suc (suc (suc w.events))))) w
      → (resp : TokenResponse) × (w' : World) × (exchange_code_for_token s req w ≡ (ok resp, w'))
  unfolding exchange_code_for_token
  exchange_complete s req w client code calm auth grant f unused live m fresh =
      let a =
        validate_client_credentials_complete req.client_id req.client_secret w client
          (calm w.events) auth in
      let (u, e, n, same) = redeem_complete req code (tick w) calm f unused live m in
      let (resp, v, h) = issue_tokens_complete s client code u calm (rw (n, same) fresh) in
      (resp, v, ground (arith, ==_iff req.grant_type "authorization_code"))
