-- ===== src/Tests/HttpScene.antt =====
-- A handler and requests for the scene.
use opentrusty.Prelude.{String, if◌then◌else◌, none, some, ◌==◌}
use opentrusty.Http.{Handler, Request}

abbrev pub handler : String → Handler
handler mode = record {
  identity_service = record {
    hasher = record {
      memory = 1;
      iterations = 1;
      parallelism = 1;
      salt_length = 1;
      key_length = 1;
    };
    lockout_max_attempts = 5;
    lockout_duration = 900;
  };
  session_service = record { lifetime = 500; idle_timeout = 60 };
  oauth2_service = record {
    oidc_provider = none;
    auth_code_lifetime = 1;
    access_token_lifetime = 1;
    refresh_token_lifetime = 1;
  };
  mode = mode;
}

abbrev pub asked_query : String → String
asked_query name =
    if name == "client_id"
    then "app"
    else if name == "redirect_uri"
    then "https://app/cb"
    else if name == "response_type"
    then "code"
    else if name == "scope"
    then "openid"
    else if name == "state"
    then "st"
    else ""

abbrev pub request_of : (String → String) → Request
request_of query = record {
  method = "GET";
  session_cookie = "s1";
  tenant_header = "";
  csrf_header = "";
  forwarded_for = "";
  real_ip = "";
  remote_addr = "10.0.0.1";
  user_agent = "agent";
  query = query;
  form = none;
  basic_auth = none;
  login_body = some ("root@home", "secret");
}
