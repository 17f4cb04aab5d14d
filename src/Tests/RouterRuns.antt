-- ===== src/Tests/RouterRuns.antt =====
-- A request of alice, who manages the users of the tenant t1, to give bob a role there.
use opentrusty.Prelude.{
  Bool, List, String, [], false, none, some, suc, true, zero, ℕ, ◌∷◌, ◌≡◌, ◌⊎◌,
}
use opentrusty.Authz.Permissions.{tenant_manage_users}
use opentrusty.Authz.Tables.{tables}
use opentrusty.Http.{Request}
use opentrusty.Http.RateLimiter.{RateLimiter, rate_limit}
use opentrusty.Http.Router.{Payload, Provider}
use opentrusty.Http.Router.Front.{handle, handle_entitled}
use opentrusty.Http.Router.Grants.{MayChange}
use opentrusty.Tests.HttpScene.{asked_query, handler, request_of}
use opentrusty.Tests.Scene.{demo, scene}
use opentrusty.World.{World}

abbrev posted : Request
posted = record (request_of asked_query) { method = "POST"; csrf_header = "1" }

abbrev provider : Provider
provider = record {
  oidc = record { issuer = "http://localhost:8080"; kid = "k" };
  key = record { modulus = 3 ∷ []; exponent = 65_537 };
}

abbrev payload : Payload
payload = record {
  tenant_name = none;
  role = some "tenant_member";
  profile = none;
  passwords = none;
  registration = none;
}

abbrev managing : World
managing = record scene { permissions = (record { id = "p1"; name = tenant_manage_users }) ∷ [] }

abbrev roles_of_bob : List String
roles_of_bob = "api" ∷ "v1" ∷ "tenants" ∷ "t1" ∷ "users" ∷ "bob" ∷ "roles" ∷ []

-- A limiter holds how many requests are left.
abbrev one_less : ℕ → ℕ → Bool × ℕ
one_less zero now = (false, 0)
one_less (suc n) now = (true, n)

abbrev burst_of : ℕ → ℕ → ℕ
burst_of rate burst = burst

abbrev limiter : RateLimiter ℕ ℕ
limiter = record { ips = []; rps = 1; burst = 5 }

handle_entitled_example :
    (tables
        (handle ⦃env = demo⦄ burst_of one_less limiter
          (handler "all")
          provider
          posted
          payload
          roles_of_bob
          7
          managing).0.1
      ≡ tables managing)
    ⊎ (MayChange ⦃env = demo⦄ (handler "all") posted roles_of_bob managing
        × ((rate_limit burst_of one_less limiter posted 7).0 ≡ none))
handle_entitled_example =
    handle_entitled ⦃env = demo⦄ burst_of one_less limiter (handler "all") provider posted payload
      roles_of_bob 7 managing
