-- ===== src/Oauth2/Authorize/Accept.antt =====
-- Which authorization requests are accepted (`ValidateAuthorizeRequest` of
-- internal/oauth2/service.go).
use opentrusty.Store.Clients
use opentrusty.Prelude.{
  ==_iff, Option-cases, String, arith, false, find_row, inl, inr, some, true, ◌==◌, ◌↔◌, ◌≡◌, ◌⊎◌,
}
use opentrusty.Domain.Oauth2.{AuthorizeRequest, Client}
use opentrusty.Oauth2.Authorize.{is_known_method, validate_authorize_request}
use opentrusty.Oauth2.Client.{validate_redirect_uri, validate_scope}
use opentrusty.Oauth2.Client.Scopes.{
  AllAllowed, IsIn, validate_redirect_uri_iff, validate_scope_iff,
}
use opentrusty.Text.{fields}
use opentrusty.World.{Env, World, ok, tick}

-- The request is one that the client may make.
pub record MayAsk (req : AuthorizeRequest) (c : Client) : Type 0 where
  pub active : c.is_active ≡ true
  pub uri_registered : IsIn req.redirect_uri c.redirect_uris
  pub asks_code : req.response_type ≡ "code"
  pub scopes_allowed : AllAllowed c.allowed_scopes (fields req.scope)
  pub method_known :
      (req.code_challenge ≡ "")
      ⊎ ((req.code_challenge_method ≡ "")
          ⊎ ((req.code_challenge_method ≡ "plain") ⊎ (req.code_challenge_method ≡ "S256")))

known_iff : (m : String) → (is_known_method m ≡ true) ↔ ((m ≡ "") ⊎ ((m ≡ "plain") ⊎ (m ≡ "S256")))
unfolding is_known_method
known_iff m = ground (arith, ==_iff m "", ==_iff m "plain", ==_iff m "S256")

method_iff :
    (req : AuthorizeRequest)
    → ((req.code_challenge ≡ "") ⊎ (is_known_method req.code_challenge_method ≡ true)) ↔ (
        (req.code_challenge ≡ "")
        ⊎ ((req.code_challenge_method ≡ "")
            ⊎ ((req.code_challenge_method ≡ "plain") ⊎ (req.code_challenge_method ≡ "S256"))))
method_iff req =
    let (to, from) = known_iff req.code_challenge_method in
    (
      (λ k. elim k [ inl e ↦ inl e | inr m ↦ inr (to m) ]),
      (λ k. elim k [ inl e ↦ inl e | inr m ↦ inr (from m) ]),
    )

no_scope : (c : Client) (scope : String) → (scope == "") ≡ true → validate_scope c scope ≡ true
unfolding validate_scope
no_scope c scope h = ground arith

module _ ⦃env : Env⦄ where
  accepts :
      (req : AuthorizeRequest) (w w' : World) (c : Client)
      → validate_authorize_request req w ≡ (ok c, w')
      → (find_row (Clients.has_client_id req.client_id) w.clients ≡ some c)
        × (c.is_active ≡ true)
        × (validate_redirect_uri c req.redirect_uri ≡ true)
        × (req.response_type ≡ "code")
        × (validate_scope c req.scope ≡ true)
        × ((req.code_challenge ≡ "") ⊎ (is_known_method req.code_challenge_method ≡ true))
        × (w' ≡ tick w)
  unfolding validate_authorize_request Clients.get_by_client_id
  accepts req w w' c h =
      elim (Option-cases (find_row (Clients.has_client_id req.client_id) w.clients)) [
        | inl e ↦ absurd (ground arith)
        | inr (r, e) ↦ ground (
          arith,
          no_scope r req.scope,
          ==_iff req.response_type "code",
          ==_iff req.code_challenge "",
        )
      ]

  -- An authorization request that is accepted is of a registered, active client, for one of its
  -- redirect URIs, the response type code, allowed scopes and, if it has a challenge, a known
  -- challenge method; only the count of calls changes.
  pub validate_authorize_request_sound :
      (req : AuthorizeRequest) (w w' : World) (c : Client)
      → validate_authorize_request req w ≡ (ok c, w')
      → (find_row (Clients.has_client_id req.client_id) w.clients ≡ some c)
        × MayAsk req c
        × (w' ≡ tick w)
  validate_authorize_request_sound req w w' c h =
      let (found, active, uri, asks, scope, known, same) = accepts req w w' c h in
      (
        found,
        record {
          active = active;
          uri_registered = (validate_redirect_uri_iff c req.redirect_uri).0 uri;
          asks_code = asks;
          scopes_allowed = (validate_scope_iff c req.scope).0 scope;
          method_known = (method_iff req).0 known;
        },
        same,
      )

  -- A request that a registered client may make is accepted, if the statement does not fail.
  pub validate_authorize_request_complete :
      (req : AuthorizeRequest) (w : World) (c : Client)
      → env.outage w.events ≡ false
      → find_row (Clients.has_client_id req.client_id) w.clients ≡ some c
      → MayAsk req c
      → validate_authorize_request req w ≡ (ok c, tick w)
  unfolding validate_authorize_request Clients.get_by_client_id
  validate_authorize_request_complete req w c up e m = ground (
    arith,
    (validate_redirect_uri_iff c req.redirect_uri).1 m.uri_registered,
    (validate_scope_iff c req.scope).1 m.scopes_allowed,
    ==_iff req.response_type "code",
    ==_iff req.code_challenge "",
    (method_iff req).1 m.method_known,
  )
