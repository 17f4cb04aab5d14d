-- ===== src/Tests/Oauth2Runs.antt =====
-- The life of the code and of the refresh token of the scene.
use opentrusty.Oauth2.Service as Accounts
use opentrusty.Oauth2.Refresh.Replay as Replay
use opentrusty.Oauth2.Exchange.SingleUse as SingleUse
use opentrusty.Store.Clients
use opentrusty.Store.Codes
use opentrusty.Store.AccessTokens
use opentrusty.Store.RefreshTokens
use opentrusty.Prelude.{
  String, arith, find_row, if◌then◌else◌, inl, inr, ltb, none, refl, some, suc, ◌≡◌, ◌≢◌,
}
use opentrusty.Domain.Errors.{token_expired}
use opentrusty.Domain.Oauth2.{AccessToken, AuthorizationCode, Client, RefreshToken, TokenResponse}
use opentrusty.Oauth2.Authorize.Accept.{
  MayAsk, validate_authorize_request_complete, validate_authorize_request_sound,
}
use opentrusty.Oauth2.Client.{contains_scope, generate_token, hash_token, lists}
use opentrusty.Oauth2.Exchange.{
  check_code, exchange_code_for_token, issue_access_token, issue_id_token, issue_refresh_token,
  issue_tokens, redeem_code, store_refresh_token,
}
use opentrusty.Oauth2.Exchange.Checks.{Matches}
use opentrusty.Oauth2.Exchange.Complete.{exchange_complete}
use opentrusty.Oauth2.Exchange.Grant.{Exchanged, exchange_code_for_token_lem}
use opentrusty.Oauth2.Exchange.SingleUse.{exchange_once}
use opentrusty.Oauth2.Exchange.Validate.{validate-exchange}
use opentrusty.Oauth2.Refresh.{check_refresh_token, refresh_access_token}
use opentrusty.Oauth2.Refresh.Complete.{refresh_complete}
use opentrusty.Oauth2.Refresh.Grant.{Refreshed, refresh_access_token_lem}
use opentrusty.Oauth2.Refresh.Replay.{refresh_never_after_revoke}
use opentrusty.Oauth2.Refresh.Revocation.{IsRevoked, revoke_refresh_token-IsRevoked}
use opentrusty.Oauth2.Service.{
  revoke_refresh_token, validate_access_token, validate_client_credentials,
}
use opentrusty.Oauth2.Service.Credentials.{Authenticated}
use opentrusty.Tests.Scene.{
  app, asked, demo, granted_code, scene, stored_refresh_token, with_code, with_refresh,
}
use opentrusty.Text.{fields, fields_from, is_space, split}
use opentrusty.World.{Result, World, err, ok, tick}

abbrev service : Accounts.Service
service = record {
  oidc_provider = none;
  auth_code_lifetime = 1;
  access_token_lifetime = 1;
  refresh_token_lifetime = 1;
}

abbrev exchanged : Result TokenResponse × World
exchanged = exchange_code_for_token ⦃env = demo⦄ service with_code scene

abbrev answer : TokenResponse
answer = record {
  access_token = "ab.";
  token_type = "Bearer";
  expires_in = 3600;
  refresh_token = "bb.";
  id_token = "";
  scope = "openid offline_access";
}

exchange_runs :
    exchange_code_for_token ⦃env = demo⦄ service with_code scene ≡ (ok answer, exchanged.1)
unfolding exchange_code_for_token validate_client_credentials hash_token Clients.get_by_client_id
    redeem_code Codes.get_by_code check_code Codes.mark_as_used issue_tokens issue_access_token
    store_refresh_token generate_token AccessTokens.create contains_scope lists split
    issue_refresh_token RefreshTokens.create issue_id_token
exchange_runs = refl

-- The refresh token of the scene is used between two exchanges of the code.
abbrev between : World
between = (refresh_access_token ⦃env = demo⦄ with_refresh exchanged.1).1

exchange_once_example :
    exchange_code_for_token ⦃env = demo⦄ service with_code between ≢ (ok answer, between)
exchange_once_example =
    exchange_once ⦃env = demo⦄ service service with_code with_code scene exchanged.1 between between
      answer answer exchange_runs
      (SingleUse.then_step SingleUse.here (SingleUse.refresh with_refresh refl)) refl

exchange_code_for_token_lem_example :
    (client : Client) × (code : AuthorizationCode) × (row : AccessToken) × Exchanged ⦃env = demo⦄
      with_code answer scene exchanged.1 client code row
exchange_code_for_token_lem_example =
    exchange_code_for_token_lem ⦃env = demo⦄ service with_code scene exchanged.1 answer
      exchange_runs

abbrev refreshed : Result TokenResponse × World
refreshed = refresh_access_token ⦃env = demo⦄ with_refresh scene

abbrev refresh_answer : TokenResponse
refresh_answer = record {
  access_token = "ab.";
  token_type = "Bearer";
  expires_in = 3600;
  refresh_token = "AzA";
  id_token = "";
  scope = "openid";
}

refresh_access_token_lem_example :
    (client : Client) × (rt : RefreshToken) × (row : AccessToken) × Refreshed ⦃env = demo⦄
      with_refresh refresh_answer scene refreshed.1 client rt row
unfolding refresh_access_token validate_client_credentials hash_token Clients.get_by_client_id
    check_refresh_token RefreshTokens.get_by_token_hash issue_access_token generate_token
    AccessTokens.create
refresh_access_token_lem_example =
    refresh_access_token_lem ⦃env = demo⦄ with_refresh scene refreshed.1 refresh_answer refl

abbrev revoked : Result (Unit {0}) × World
revoked = revoke_refresh_token ⦃env = demo⦄ "AzA" "app" scene

revoke_runs : revoke_refresh_token ⦃env = demo⦄ "AzA" "app" scene ≡ (ok tt, revoked.1)
unfolding revoke_refresh_token hash_token RefreshTokens.get_by_token_hash RefreshTokens.revoke
revoke_runs = refl

revoke_refresh_token-IsRevoked_example :
    (r : RefreshToken) × (find_row
        (RefreshTokens.has_hash (hash_token ⦃env = demo⦄ "AzA"))
        scene.refresh_tokens
      ≡ some r)
    × (r.client_id ≡ "app")
    × IsRevoked (hash_token ⦃env = demo⦄ "AzA") revoked.1
    × ((other : String)
        → other ≢ hash_token ⦃env = demo⦄ "AzA"
        → find_row (RefreshTokens.has_hash other) revoked.1.refresh_tokens
          ≡ find_row (RefreshTokens.has_hash other) scene.refresh_tokens)
revoke_refresh_token-IsRevoked_example =
    revoke_refresh_token-IsRevoked ⦃env = demo⦄ "AzA" "app" scene revoked.1 revoke_runs

-- The code of the scene is exchanged between the revocation and the refresh.
abbrev after_exchange : World
after_exchange = (exchange_code_for_token ⦃env = demo⦄ service with_code revoked.1).1

refresh_never_after_revoke_example :
    refresh_access_token ⦃env = demo⦄ with_refresh after_exchange
    ≢ (ok refresh_answer, after_exchange)
refresh_never_after_revoke_example =
    refresh_never_after_revoke ⦃env = demo⦄ "AzA" "app" with_refresh scene revoked.1 after_exchange
      after_exchange refresh_answer revoke_runs
      (Replay.then_step Replay.here (Replay.exchange service with_code refl)) refl

may_ask : MayAsk asked app
unfolding fields fields_from is_space
may_ask = record {
  active = refl;
  uri_registered = inl refl;
  asks_code = refl;
  scopes_allowed = (inl (inl refl), (inl (inr (inl refl)), tt));
  method_known = inl refl;
}

validate_authorize_request_sound_example :
    (find_row (Clients.has_client_id "app") scene.clients ≡ some app)
    × MayAsk asked app
    × (tick scene ≡ tick scene)
validate_authorize_request_sound_example =
    validate_authorize_request_sound ⦃env = demo⦄ asked scene (tick scene) app
      (validate_authorize_request_complete ⦃env = demo⦄ asked scene app refl refl may_ask)

authenticated : Authenticated ⦃env = demo⦄ scene "app" "SS" app
unfolding hash_token
authenticated = record { registered = refl; active = refl; secret_known = inr refl }

validate-exchange_example :
    (client : Client) × (code : AuthorizationCode) × (row : AccessToken) × Exchanged ⦃env = demo⦄
      with_code answer scene exchanged.1 client code row
    × ((validate_access_token ⦃env = demo⦄ answer.access_token exchanged.1).0 ≡ (
        if ltb row.expires_at (demo.clock (suc exchanged.1.events))
        then err token_expired
        else ok row))
validate-exchange_example =
    validate-exchange ⦃env = demo⦄ service with_code scene exchanged.1 answer exchange_runs refl

exchange_complete_example :
    (resp : TokenResponse) × (w' : World) × (exchange_code_for_token ⦃env = demo⦄ service with_code
        scene
      ≡ (ok resp, w'))
exchange_complete_example =
    exchange_complete ⦃env = demo⦄ service with_code scene app granted_code (λ n. refl)
      authenticated refl refl refl (omega arith) matching refl
  where
    matching : Matches ⦃env = demo⦄ with_code granted_code
    matching = record { same_client = refl; same_uri = refl; verified = inl refl }

refresh_complete_example :
    (resp : TokenResponse) × (w' : World) × (refresh_access_token ⦃env = demo⦄ with_refresh scene
      ≡ (ok resp, w'))
unfolding hash_token
refresh_complete_example =
    refresh_complete ⦃env = demo⦄ with_refresh scene app stored_refresh_token (λ n. refl)
      authenticated refl refl (omega arith) refl refl
