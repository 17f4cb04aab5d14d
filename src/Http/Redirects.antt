-- ===== src/Http/Redirects.antt =====
-- Where `Authorize` (internal/transport/http/oauth2_handler.go) sends the user's browser.
use opentrusty.Store.Clients
use opentrusty.Store.Codes
use opentrusty.Prelude.{
  ==_iff, Bool-cases, String, [], arith, false, find_row, inl, inr, none, some, sym, ◌++◌, ◌==◌,
  ◌∙◌, ◌∷◌, ◌≡◌, ◌≢◌,
}
use opentrusty.Domain.Errors.{Error, invalid_request}
use opentrusty.Domain.Oauth2.{AuthorizationCode, AuthorizeRequest, Client}
use opentrusty.Http.{Request, redirect, reply}
use opentrusty.Http.Oauth2.{
  authorize, authorize_request, authorize_valid, refuse_authorize, respond_oauth_error,
}
use opentrusty.Oauth2.Authorize.{create_authorization_code, new_code, validate_authorize_request}
use opentrusty.Oauth2.Authorize.Accept.{MayAsk, validate_authorize_request_sound}
use opentrusty.Oauth2.Client.{generate_token}
use opentrusty.Text.{contains, has_prefix}
use opentrusty.World.{Env, World, ok, tick}
use opentrusty.World.Laws.{Outcome-cases}

module _ ⦃env : Env⦄ where
  create_authorization_code_lem :
      (req : AuthorizeRequest) (user : String) (w w' : World) (c : AuthorizationCode)
      → create_authorization_code req user w ≡ (ok c, w')
      → (w'.codes ≡ w.codes ++ Codes.to_row c ∷ [])
        × (c.user_id ≡ user)
        × (c.client_id ≡ req.client_id)
        × (c.redirect_uri ≡ req.redirect_uri)
        × (c.is_used ≡ false)
  unfolding create_authorization_code new_code generate_token Codes.create
  create_authorization_code_lem req user w w' c h = ground arith

  authorize_valid_sound :
      (req : AuthorizeRequest) (user url code state : String) (w w' : World)
      → authorize_valid req user w
        ≡ (ok (reply (redirect url (("code", code) ∷ ("state", state) ∷ []))), w')
      → (url ≡ req.redirect_uri)
        × (state ≡ req.state)
        × (user ≢ "")
        × ((c : AuthorizationCode) × (w'.codes ≡ w.codes ++ c ∷ [])
            × (c.code ≡ code)
            × (c.user_id ≡ user)
            × (c.client_id ≡ req.client_id)
            × (c.redirect_uri ≡ req.redirect_uri)
            × (c.is_used ≡ false))
  unfolding authorize_valid
  authorize_valid_sound req user url code state w w' h = elim (Bool-cases (user == "")) [
    | inl none_there ↦ absurd (ground arith)
    | inr there ↦ elim (Outcome-cases (create_authorization_code req user w)) [
      | inr (x, u, e) ↦ absurd (ground (arith, ==_iff "error" "code"))
      | inl (c, u, e) ↦
          let (stored, of_user, of_client, of_uri, unused) =
            create_authorization_code_lem req user w u c e in
          (
            ground arith,
            ground arith,
            (λ empty. ground (arith, ==_iff user "")),
            (Codes.to_row c, ground arith, ground arith, of_user, of_client, of_uri, unused),
          )
    ]
  ]

  refuse_authorize_no_code :
      (req : AuthorizeRequest) (e : Error) (url code state : String)
      → refuse_authorize req e ≢ reply (redirect url (("code", code) ∷ ("state", state) ∷ []))
  unfolding refuse_authorize respond_oauth_error
  refuse_authorize_no_code req e url code state h = ground arith

  -- A browser that is sent on with a code is sent to the redirect URI of the request, which is
  -- registered for the client of the request, for a user who is logged in; the code is stored for
  -- that user, client and URI, unused.
  pub authorize_sound :
      (r : Request) (user url code state : String) (w w' : World)
      → authorize r user w
        ≡ (ok (reply (redirect url (("code", code) ∷ ("state", state) ∷ []))), w')
      → (client : Client) × (find_row (Clients.has_client_id (r.query "client_id")) w.clients
          ≡ some client)
        × MayAsk (authorize_request r) client
        × (url ≡ r.query "redirect_uri")
        × (user ≢ "")
        × ((c : AuthorizationCode) × (w'.codes ≡ w.codes ++ c ∷ [])
            × (c.code ≡ code)
            × (c.user_id ≡ user)
            × (c.client_id ≡ r.query "client_id")
            × (c.redirect_uri ≡ url)
            × (c.is_used ≡ false))
  unfolding authorize authorize_request refuse_authorize
  authorize_sound r user url code state w w' h =
      let req = authorize_request r in
      elim (Outcome-cases (validate_authorize_request req w)) [
        | inr (x, u, e) ↦ absurd (refuse_authorize_no_code req x url code state (ground arith))
        | inl (client, u, e) ↦
            let (found, may, same) = validate_authorize_request_sound req w u client e in
            let (to, st, someone, (c, stored, of_code, of_user, of_client, of_uri, unused)) =
              authorize_valid_sound req user url code state u w' (ground arith) in
            (
              client,
              found,
              may,
              to,
              someone,
              (c, ground arith, of_code, of_user, of_client, of_uri ∙ sym to, unused),
            )
      ]

  -- For a client that is not registered the browser is sent to the redirect URI of the request,
  -- whatever it is, if the statement does not fail.
  pub authorize_unknown_client :
      (r : Request) (user : String) (w : World)
      → env.outage w.events ≡ false
      → find_row (Clients.has_client_id (r.query "client_id")) w.clients ≡ none
      → authorize r user w ≡ (
        ok (
            reply (
              redirect (r.query "redirect_uri") (
                ("error", invalid_request)
                ∷ ("error_description", "invalid client_id")
                ∷ ("state", r.query "state")
                ∷ []))),
        tick w,
      )
  unfolding authorize authorize_request refuse_authorize validate_authorize_request
      Clients.get_by_client_id contains has_prefix
  authorize_unknown_client r user w up e = ground arith
