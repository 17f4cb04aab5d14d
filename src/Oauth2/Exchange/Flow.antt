-- ===== src/Oauth2/Exchange/Flow.antt =====
-- The code flow as a whole: `CreateAuthorizationCode`, then `ExchangeCodeForToken`
-- (internal/oauth2/service.go).
use opentrusty.Store.Codes
use opentrusty.Prelude.{
  ==_refl, Bool-cases, String, [], any_row, ap, arith, find_row, find_row-any_row,
  find_row-append_new, inl, inr, none, some, subst, suc, sym, true, ◌*◌, ◌++◌, ◌+◌, ◌∙◌, ◌∷◌, ◌≡◌,
  ◌≤◌, ◌⊎◌,
}
use opentrusty.Domain.Oauth2.{
  AccessToken, AuthorizationCode, AuthorizeRequest, Client, TokenRequest, TokenResponse,
}
use opentrusty.Oauth2.Authorize.{create_authorization_code, new_code}
use opentrusty.Oauth2.Client.{generate_token, validate_pkce}
use opentrusty.Oauth2.Exchange.{exchange_code_for_token}
use opentrusty.Oauth2.Exchange.Checks.{Matches}
use opentrusty.Oauth2.Exchange.Complete.{IsFresh, exchange_complete}
use opentrusty.Oauth2.Exchange.Grant.{exchange_code_for_token_lem}
use opentrusty.Oauth2.Exchange.Tokens.{Issued}
use opentrusty.Oauth2.Service.{Service}
use opentrusty.Oauth2.Service.Credentials.{Authenticated}
use opentrusty.World.{Env, World, ok, second, stored_time}
use opentrusty.World.Laws.{IsCalm}

-- The client of the request for a code presents the code, with the same redirect URI and a verifier
-- of the challenge.
pub record Presents ⦃env : Env⦄ (req : AuthorizeRequest) (code : AuthorizationCode)
    (t : TokenRequest) : Type 0 where
  pub grant : t.grant_type ≡ "authorization_code"
  pub presented : t.code ≡ code.code
  pub same_client : t.client_id ≡ req.client_id
  pub same_uri : t.redirect_uri ≡ req.redirect_uri
  pub verified :
      (req.code_challenge ≡ "")
      ⊎ (validate_pkce req.code_challenge req.code_challenge_method t.code_verifier ≡ true)

module _ ⦃env : Env⦄ where
  -- A code that was created is found by its text, as it was made.
  created_lem :
      (req : AuthorizeRequest) (user : String) (code : AuthorizationCode) (w w' : World)
      → create_authorization_code req user w ≡ (ok code, w')
      → (find_row (Codes.has_code code.code) w'.codes ≡ some (Codes.to_row code))
        × (w'.access_tokens ≡ w.access_tokens)
        × (w'.clients ≡ w.clients)
        × (new_code req user code.id code.code
              (env.clock (suc (suc w.events)))
              (env.clock (suc (suc (suc w.events))))
            ≡ code)
  unfolding create_authorization_code new_code generate_token Codes.create
  created_lem req user code w w' h = elim (Bool-cases (any_row (Codes.conflicts code) w.codes)) [
    | inl taken ↦ absurd (ground arith)
    | inr free ↦
        let stored : w'.codes ≡ w.codes ++ Codes.to_row code ∷ [] = ground arith in
        let new : find_row (Codes.has_code code.code) w.codes ≡ none =
          find_row-any_row (Codes.has_code code.code) (Codes.conflicts code)
            (λ r same. ground arith) w.codes free in
        (
          rw stored (
              find_row-append_new (Codes.has_code code.code) w.codes (Codes.to_row code) new
                (==_refl code.code)),
          ground arith,
          ground arith,
          ground arith,
        )
  ]

  -- A successful exchange issues a token for the client and the code that are stored.
  issued_for :
      (s : Service) (t : TokenRequest) (client : Client) (code : AuthorizationCode)
      (resp : TokenResponse) (w v : World)
      → Authenticated w t.client_id t.client_secret client
      → find_row (Codes.has_code t.code) w.codes ≡ some code
      → exchange_code_for_token s t w ≡ (ok resp, v)
      → (row : AccessToken) × Issued w v client code.user_id code.scope resp.access_token row
        × (resp.scope ≡ code.scope)
  issued_for s t client code resp w v auth there e =
      let (client', code', row, x) = exchange_code_for_token_lem s t w v resp e in
      let same : code' ≡ code = ground (arith, x.found) in
      let authentic : client' ≡ client =
        ground (arith, auth.registered, x.authenticated.registered) in
      (
        row,
        subst (λ c. Issued w v c code.user_id code.scope resp.access_token row) authentic
            (subst (λ c. Issued w v client' c.user_id c.scope resp.access_token row) same x.issued),
        x.scope_kept ∙ ap (λ c. c.scope) same,
      )

  -- A code that was created gets its client the tokens of the user for the scope of the request, if
  -- the client presents it within five minutes, cut to the microsecond, with the same redirect URI
  -- and, if the request had a challenge, a verifier of it, no statement fails and the new access
  -- token has an identifier and a hash that no row has. A request without a challenge needs no
  -- verifier, also from a public client.
  pub exchange-create :
      (s : Service) (req : AuthorizeRequest) (user : String) (code : AuthorizationCode)
      (t : TokenRequest) (client : Client) (w w' : World)
      → IsCalm env
      → create_authorization_code req user w ≡ (ok code, w')
      → Authenticated w' t.client_id t.client_secret client
      → Presents req code t
      → env.clock (suc (suc w'.events))
        ≤ stored_time (env.clock (suc (suc w.events)) + 300 * second)
      → IsFresh (suc (suc (suc (suc (suc w'.events))))) w'
      → (resp : TokenResponse) × (v : World) × (row : AccessToken) × (exchange_code_for_token s t w'
          ≡ (ok resp, v))
        × Issued w' v client user req.scope resp.access_token row
        × (resp.scope ≡ req.scope)
  unfolding new_code
  exchange-create s req user code t client w w' calm made auth p soon fresh =
      let (found, _, _, shape) = created_lem req user code w w' made in
      let there : find_row (Codes.has_code t.code) w'.codes ≡ some (Codes.to_row code) =
        rw p.presented found in
      let m : Matches t (Codes.to_row code) = record {
        same_client = ground arith;
        same_uri = ground arith;
        verified =
            subst
              (λ c.
                (c.code_challenge ≡ "")
                ⊎ (validate_pkce c.code_challenge c.code_challenge_method t.code_verifier ≡ true))
              shape p.verified;
      } in
      let (resp, v, e) =
        exchange_complete s t w' client (Codes.to_row code) calm auth p.grant there (ground arith)
          (ground arith) m fresh in
      let (row, issued, scope) = issued_for s t client (Codes.to_row code) resp w' v auth there e in
      (
        resp,
        v,
        row,
        e,
        subst (λ u. Issued w' v client u req.scope resp.access_token row)
            (sym (ap (λ c. c.user_id) shape))
            (subst (λ c. Issued w' v client code.user_id c resp.access_token row)
              (sym (ap (λ c. c.scope) shape)) issued),
        scope ∙ sym (ap (λ c. c.scope) shape),
      )
