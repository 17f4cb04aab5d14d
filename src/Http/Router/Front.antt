-- ===== src/Http/Router/Front.antt =====
-- The limiter of requests in front of the routes, in `NewRouter` of
-- internal/transport/http/handlers.go.
use opentrusty.Prelude.{Bool, List, Option-cases, String, arith, inl, inr, none, some, ℕ, ◌≡◌, ◌⊎◌}
use opentrusty.Authz.Tables.{tables}
use opentrusty.Http.{Handler, Reply, Request, reply}
use opentrusty.Http.RateLimiter.{RateLimiter, rate_limit}
use opentrusty.Http.Router.{Payload, Provider, serve}
use opentrusty.Http.Router.Grants.{MayChange, serve_entitled}
use opentrusty.World.{Env, Result, World, pure}

module _ ⦃env : Env⦄ {Rate L : Type 0} (new_limiter : Rate → ℕ → L) (allow : L → ℕ → Bool × L) where
  -- The outcome of a request that arrives at a time, and the limiters after it.
  unfoldable pub handle :
      RateLimiter Rate L
      → Handler
      → Provider
      → Request
      → Payload
      → List String
      → ℕ
      → World
      → (Result Reply × World) × RateLimiter Rate L
  handle rl h p r b path now w =
      let (refused, rl') = rate_limit new_limiter allow rl r now in
      (elim refused [ none ↦ serve h p r b path w | some reply ↦ pure reply w ], rl')

  -- Whatever is requested, and however it is answered, the roles, their assignments, and the
  -- identifiers, tenants, secrets and marks of deletion of the clients are as they were, or the
  -- limiter lets the request pass and it has the CSRF header and the identifier of a stored session
  -- that has not expired, of a user whom the tables grant what its route asks for: the management
  -- of tenants on the platform to make a tenant, and, at the tenant of the path, that of users to
  -- assign or revoke a role and that of clients to make or delete one.
  pub handle_entitled :
      (rl : RateLimiter Rate L) (h : Handler) (p : Provider) (r : Request) (b : Payload)
      (path : List String) (now : ℕ) (w : World)
      → (tables (handle rl h p r b path now w).0.1 ≡ tables w)
        ⊎ (MayChange h r path w × ((rate_limit new_limiter allow rl r now).0 ≡ none))
  unfolding handle
  handle_entitled rl h p r b path now w =
      elim (Option-cases (rate_limit new_limiter allow rl r now).0) [
        | inr (reply, e) ↦ inl (ground arith)
        | inl e ↦ elim (serve_entitled h p r b path w) [
          | inl same ↦ inl (ground arith)
          | inr may ↦ inr (may, e)
        ]
      ]
