-- ===== src/Http/Oauth2.antt =====
-- The OAuth2 endpoints of internal/transport/http/oauth2_handler.go.
use Prim.Native.String.{◌++◌ as append}
use opentrusty.Prelude.{
  List, Option, String, [], if◌then◌else◌, map, none, some, ℕ, ◌&&◌, ◌==◌, ◌∷◌,
}
use opentrusty.Domain.Errors.{
  Error, Protocol, invalid_client, invalid_request, new_error, protocol, server_error,
  unsupported_grant_type,
}
use opentrusty.Domain.Oauth2.{AuthorizeRequest, TokenRequest, TokenResponse}
use opentrusty.Http.{
  Handler, Reply, Request, empty_ok, oauth_error, redirect, reply, respond_error, tokens,
}
use opentrusty.Oauth2.Authorize.{create_authorization_code, validate_authorize_request}
use opentrusty.Oauth2.Exchange.{exchange_code_for_token}
use opentrusty.Oauth2.Refresh.{refresh_access_token}
use opentrusty.Oauth2.Service.{revoke_refresh_token, validate_client_credentials}
use opentrusty.Text.{contains, join}
use opentrusty.World.{Env, M, Result, attempt, err, ok, pure, ◌>>=◌, ◌>>◌}

-- `addQueryParams`, for one order of the parameters: Go leaves the order of a map open.
unfoldable pub add_query_params : String → List (String × String) → String
unfolding contains join
add_query_params url params = append url (
    append (if contains url "?" then "&" else "?")
      (join (map (λ p. append p.0 (append "=" p.1)) params) "&"))

unfoldable pub status_of : Protocol → ℕ
status_of e = if e.code == server_error then 500 else if e.code == invalid_client then 401 else 400

-- `respondOAuthError`: an error that is not one of the protocol is not shown.
unfoldable pub respond_oauth_error : Error → Reply
unfolding status_of
respond_oauth_error (protocol e) = reply (oauth_error (status_of e) e)
respond_oauth_error e = reply (
    oauth_error 500
      (record { code = server_error; description = "internal server error"; uri = ""; state = "" }))

unfoldable pub authorize_request : Request → AuthorizeRequest
authorize_request r = record {
  client_id = r.query "client_id";
  redirect_uri = r.query "redirect_uri";
  response_type = r.query "response_type";
  scope = r.query "scope";
  state = r.query "state";
  nonce = r.query "nonce";
  code_challenge = r.query "code_challenge";
  code_challenge_method = r.query "code_challenge_method";
}

-- The answer to a request that is not valid: shown if it names the redirect, else redirected.
unfoldable pub refuse_authorize : AuthorizeRequest → Error → Reply
unfolding respond_oauth_error contains
refuse_authorize req (protocol e) =
    if e.code == invalid_request && contains e.description "redirect"
    then respond_oauth_error (protocol e)
    else reply (
        redirect req.redirect_uri
          (("error", e.code) ∷ ("error_description", e.description) ∷ ("state", req.state) ∷ []))
refuse_authorize req e = respond_oauth_error e

-- The client's name and secret: of the form, or else of the header.
unfoldable pub client_credentials : (String → String) → Option (String × String) → String × String
client_credentials form none = (form "client_id", form "client_secret")
client_credentials form (some basic) =
    if form "client_id" == "" then basic else (form "client_id", form "client_secret")

unfoldable pub token_request : (String → String) → Option (String × String) → TokenRequest
unfolding client_credentials
token_request form basic = record {
  grant_type = form "grant_type";
  code = form "code";
  redirect_uri = form "redirect_uri";
  client_id = (client_credentials form basic).0;
  client_secret = (client_credentials form basic).1;
  code_verifier = form "code_verifier";
  refresh_token = form "refresh_token";
  scope = form "scope";
}

abbrev token_reply : Result TokenResponse → Reply
unfolding respond_oauth_error
token_reply (ok resp) = reply (tokens resp)
token_reply (err e) = respond_oauth_error e

module _ ⦃env : Env⦄ where
  unfoldable pub authorize_valid : AuthorizeRequest → String → M Reply
  authorize_valid req user_id =
      if user_id == "" then pure (respond_error 401 "authentication required") else (do
        made ← attempt (create_authorization_code req user_id)
        pure (elim made [
          | err _ ↦
              reply
                (redirect req.redirect_uri (("error", "server_error") ∷ ("state", req.state) ∷ []))
          | ok code ↦
              reply (redirect req.redirect_uri (("code", code.code) ∷ ("state", req.state) ∷ []))
        ]))

  -- The user is that of the request's context.
  unfoldable pub authorize : Request → String → M Reply
  unfolding authorize_request refuse_authorize authorize_valid
  authorize r user_id = do
    valid ← attempt (validate_authorize_request (authorize_request r))
    elim valid [
      | err e ↦ pure (refuse_authorize (authorize_request r) e)
      | ok _ ↦ authorize_valid (authorize_request r) user_id
    ]

  unfoldable pub token_grant : Handler → TokenRequest → M Reply
  unfolding respond_oauth_error
  token_grant h req =
      if req.grant_type == "authorization_code"
      then (do res ← attempt (exchange_code_for_token h.oauth2_service req); pure (token_reply res))
      else if req.grant_type == "refresh_token"
      then (do res ← attempt (refresh_access_token req); pure (token_reply res))
      else pure (respond_oauth_error (new_error unsupported_grant_type "unsupported grant_type"))

  unfoldable pub token : Handler → Request → M Reply
  unfolding token_request token_grant
  token h r = elim r.form [
    | none ↦ pure (respond_error 400 "invalid request")
    | some form ↦ token_grant h (token_request form r.basic_auth)
  ]

  -- Whether the token was revoked is not told.
  unfoldable pub revoke_for : String → String → String → M Reply
  unfolding respond_oauth_error
  revoke_for client_id secret raw_token =
      if raw_token == ""
      then pure (respond_oauth_error (new_error invalid_request "missing token"))
      else (do
        valid ← attempt (validate_client_credentials client_id secret)
        elim valid [
          | err e ↦ pure (respond_oauth_error e)
          | ok _ ↦ (do attempt (revoke_refresh_token raw_token client_id); pure (reply empty_ok))
        ])

  unfoldable pub revoke : Request → M Reply
  unfolding client_credentials revoke_for respond_oauth_error
  revoke r = elim r.form [
    | none ↦ pure (respond_oauth_error (new_error invalid_request "invalid request"))
    | some form ↦
        revoke_for (client_credentials form r.basic_auth).0 (client_credentials form r.basic_auth).1
          (form "token")
  ]
