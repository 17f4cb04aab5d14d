-- ===== src/Tests/FlowRuns.antt =====
-- A code that is made for alice, and its exchange.
use opentrusty.Oauth2.Service as Accounts
use opentrusty.Store.Codes
use opentrusty.Prelude.{[], arith, false, inl, inr, none, refl, ◌∷◌, ◌≡◌}
use opentrusty.Domain.Oauth2.{AccessToken, AuthorizationCode, TokenRequest, TokenResponse}
use opentrusty.Oauth2.Authorize.{create_authorization_code, new_code}
use opentrusty.Oauth2.Client.{generate_token, hash_token}
use opentrusty.Oauth2.Exchange.{exchange_code_for_token}
use opentrusty.Oauth2.Exchange.Flow.{Presents, exchange-create}
use opentrusty.Oauth2.Exchange.Tokens.{Issued}
use opentrusty.Oauth2.Service.Credentials.{Authenticated}
use opentrusty.Tests.Scene.{app, asked, demo, granted_code, scene, with_code}
use opentrusty.World.{World, ok}

abbrev service : Accounts.Service
service = record {
  oidc_provider = none;
  auth_code_lifetime = 1;
  access_token_lifetime = 1;
  refresh_token_lifetime = 1;
}

abbrev made : AuthorizationCode
made = record {
  id = ".";
  code = "ab.";
  client_id = "app";
  user_id = "alice";
  redirect_uri = "https://app/cb";
  scope = "openid offline_access";
  state = "st";
  nonce = "";
  code_challenge = "";
  code_challenge_method = "";
  expires_at = 300_000_000_102;
  used_at = none;
  is_used = false;
  created_at = 103;
}

abbrev with_made : World
with_made = record scene { events = 5; codes = granted_code ∷ Codes.to_row made ∷ [] }

abbrev presenting : TokenRequest
presenting = record with_code { code = "ab." }

create_runs : create_authorization_code ⦃env = demo⦄ asked "alice" scene ≡ (ok made, with_made)
unfolding create_authorization_code new_code generate_token Codes.create
create_runs = refl

presents : Presents ⦃env = demo⦄ asked made presenting
presents = record {
  grant = refl;
  presented = refl;
  same_client = refl;
  same_uri = refl;
  verified = inl refl;
}

known : Authenticated ⦃env = demo⦄ with_made "app" "SS" app
unfolding hash_token
known = record { registered = refl; active = refl; secret_known = inr refl }

exchange-create_example :
    (resp : TokenResponse) × (v : World) × (row : AccessToken) × (exchange_code_for_token
        ⦃env = demo⦄ service presenting with_made
      ≡ (ok resp, v))
    × Issued ⦃env = demo⦄ with_made v app "alice" "openid offline_access" resp.access_token row
    × (resp.scope ≡ "openid offline_access")
exchange-create_example =
    exchange-create ⦃env = demo⦄ service asked "alice" made presenting app scene with_made
      (λ n. refl) create_runs known presents (omega arith) refl
