-- ===== src/Http/Clients.antt =====
-- The handlers of internal/transport/http/oauth2_client_handler.go. The identifier of the client is
-- that of the path.
pub mod Secrets
pub mod Removal
use opentrusty.Prelude.{
  Bool, List, Option, String, [], false, if◌then◌else◌, inl, inr, none, not, some, true, ◌==◌, ◌∷◌,
  ◌⊎◌,
}
use opentrusty.Authz.{has_permission}
use opentrusty.Authz.Permissions.{tenant_manage_clients}
use opentrusty.Domain.Audit.{event, text}
use opentrusty.Domain.Authz.{scope_tenant}
use opentrusty.Domain.Oauth2.{Client}
use opentrusty.Http.{
  Context, Reply, client_list, client_registered, client_secret, client_shown, json_error_of,
  no_content, respond_error, untouched,
}
use opentrusty.Http.Login.{is_granted_ok}
use opentrusty.Oauth2.Client.{generate_token, hash_token}
use opentrusty.Oauth2.Service.{
  create_client, delete_client, get_client, list_clients, update_client,
}
use opentrusty.World.{Env, M, attempt, err, log, ok, pure, ◌>>=◌, ◌>>◌}

-- `RegisterClientRequest`
pub record Registration : Type 0 where
  pub client_name : String
  pub redirect_uris : List String
  pub allowed_scopes : List String
  pub grant_types : List String
  pub response_types : List String
  pub token_endpoint_auth_method : String

abbrev or_default_list : List String → String → List String
or_default_list [] d = d ∷ []
or_default_list (s ∷ ss) d = s ∷ ss

unfoldable pub new_client : Registration → String → String → Client
new_client req tenant_id secret_hash = record {
  id = "";
  client_id = "";
  tenant_id = tenant_id;
  client_secret_hash = secret_hash;
  client_name = req.client_name;
  client_uri = "";
  logo_uri = "";
  redirect_uris = req.redirect_uris;
  allowed_scopes = or_default_list req.allowed_scopes "openid";
  grant_types = or_default_list req.grant_types "authorization_code";
  response_types = or_default_list req.response_types "code";
  token_endpoint_auth_method = req.token_endpoint_auth_method;
  access_token_lifetime = 3600;
  refresh_token_lifetime = 2_592_000;
  id_token_lifetime = 3600;
  owner_id = "";
  is_trusted = false;
  is_active = true;
  created_at = none;
  updated_at = none;
  deleted_at = none;
}

module _ ⦃env : Env⦄ where
  -- The check of the permission that three of the handlers make.
  unfoldable pub may_manage_clients : Context → M Bool
  may_manage_clients c = do
    allowed ←
        attempt (has_permission c.user_id scope_tenant (some c.tenant_id) tenant_manage_clients)
    pure (is_granted_ok allowed)

  abbrev access_required : M Reply
  access_required = pure (respond_error 403 "client management access required")

  -- A secret and its hash, both empty for a public client.
  unfoldable pub new_secret : String → M (String × String)
  new_secret auth_method =
      if auth_method == "none"
      then pure ("", "")
      else (do secret ← generate_token; pure (secret, hash_token secret))

  unfoldable pub register_client : Context → Option Registration → M Reply
  unfolding new_client may_manage_clients new_secret
  register_client c body = do
    allowed ← may_manage_clients c
    if not allowed then access_required else elim body [
      | none ↦ pure (respond_error 400 "invalid request body")
      | some req ↦ (do
        (secret, secret_hash) ← new_secret req.token_endpoint_auth_method
        made ← attempt (create_client (new_client req c.tenant_id secret_hash))
        elim made [
          | err e ↦ pure (record {
            cookie = untouched;
            body = json_error_of 500 "failed to register client: " e;
          })
          | ok client ↦ (do
            log (
                event "client_created" c.tenant_id c.user_id "client" (
                  ("client_id", text client.client_id)
                  ∷ ("client_name", text client.client_name)
                  ∷ []))
            pure (record {
              cookie = untouched;
              body = client_registered client.client_id secret client.client_name;
            }))
        ])
    ]

  -- The permission is checked after the clients are read.
  unfoldable pub list_tenant_clients : Context → M Reply
  unfolding may_manage_clients
  list_tenant_clients c = do
    found ← attempt (list_clients c.tenant_id)
    elim found [
      | err e ↦
          pure
            (record { cookie = untouched; body = json_error_of 500 "failed to list clients: " e })
      | ok clients ↦ (do
        allowed ← may_manage_clients c
        if allowed
            then pure (record { cookie = untouched; body = client_list clients })
            else access_required)
    ]

  -- A client of the tenant of the context, or the reply that refuses it.
  unfoldable pub own_client : Context → String → M (Client ⊎ Reply)
  own_client c id = do
    found ← attempt (get_client id)
    pure (elim found [
      | err _ ↦ inr (respond_error 404 "client not found")
      | ok client ↦
          if client.tenant_id == c.tenant_id
          then inl client
          else inr (respond_error 403 "access denied")
    ])

  -- No permission is checked.
  unfoldable pub show_client : Context → String → M Reply
  unfolding own_client
  show_client c id = do
    found ← own_client c id
    elim found [
      | inr refused ↦ pure refused
      | inl client ↦ pure (record { cookie = untouched; body = client_shown client })
    ]

  unfoldable pub remove_client : Context → String → M Reply
  unfolding own_client may_manage_clients
  remove_client c id = do
    allowed ← may_manage_clients c
    if not allowed then access_required else (do
      found ← own_client c id
      elim found [
        | inr refused ↦ pure refused
        | inl client ↦ (do
          gone ← attempt (delete_client id)
          elim gone [
            | err _ ↦ pure (respond_error 500 "failed to delete client")
            | ok _ ↦ (do
              log (
                  event "role_revoked" c.tenant_id c.user_id "client" (("client_id", text id) ∷ []))
              pure (record { cookie = untouched; body = no_content }))
          ])
      ])

  unfoldable pub rotate_secret : Context → Client → String → M Reply
  rotate_secret c client id = do
    secret ← generate_token
    done ← attempt (update_client (record client { client_secret_hash = hash_token secret }))
    elim done [
      | err _ ↦ pure (respond_error 500 "failed to update client secret")
      | ok _ ↦ (do
        log (event "secret_rotated" c.tenant_id c.user_id "client" (("client_id", text id) ∷ []))
        pure (record { cookie = untouched; body = client_secret secret }))
    ]

  -- No permission is checked.
  unfoldable pub regenerate_client_secret : Context → String → M Reply
  unfolding own_client rotate_secret
  regenerate_client_secret c id = do
    found ← own_client c id
    elim found [
      | inr refused ↦ pure refused
      | inl client ↦
          if client.token_endpoint_auth_method == "none"
          then pure (respond_error 400 "cannot regenerate secret for public client")
          else rotate_secret c client id
    ]
