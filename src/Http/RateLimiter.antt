-- ===== src/Http/RateLimiter.antt =====
-- internal/transport/http/ratelimit.go. A limiter is one of the library golang.org/x/time/rate: the
-- types of its rate and of its state, the state of a new limiter and the call `Allow` are arguments.
-- The lock makes a call of `GetLimiter` one step; here that of `Allow` is part of the same step.
pub mod PerClient
use opentrusty.Prelude.{
  Bool, List, Option, String, [], if◌then◌else◌, none, not, some, ℕ, ◌==◌, ◌∷◌,
}
use opentrusty.Http.{Reply, Request, respond_error}

pub record RateLimiter (Rate L : Type 0) : Type 0 where
  pub ips : List (String × L)
  pub rps : Rate
  pub burst : ℕ

abbrev pub lookup_ip : {L : Type 0} → String → List (String × L) → Option L
lookup_ip ip [] = none
lookup_ip ip ((key, l) ∷ more) = if key == ip then some l else lookup_ip ip more

-- A key that is there keeps its place.
abbrev pub put_ip : {L : Type 0} → String → L → List (String × L) → List (String × L)
put_ip ip l [] = (ip, l) ∷ []
put_ip ip l ((key, k) ∷ more) = if key == ip then (key, l) ∷ more else (key, k) ∷ put_ip ip l more

-- `getClientIP`
unfoldable pub get_client_ip : Request → String
get_client_ip r = if not (r.forwarded_for == "") then r.forwarded_for else r.remote_addr

module _ {Rate L : Type 0} (new_limiter : Rate → ℕ → L) (allow : L → ℕ → Bool × L) where
  -- `NewRateLimiter`
  unfoldable pub new_rate_limiter : Rate → ℕ → RateLimiter Rate L
  new_rate_limiter rps burst = record { ips = []; rps = rps; burst = burst }

  unfoldable pub get_limiter : RateLimiter Rate L → String → L × RateLimiter Rate L
  get_limiter rl ip = elim (lookup_ip ip rl.ips) [
    | some l ↦ (l, rl)
    | none ↦ let l = new_limiter rl.rps rl.burst in (l, record rl { ips = put_ip ip l rl.ips })
  ]

  -- One turn of the loop of `cleanup`.
  unfoldable pub cleanup : RateLimiter Rate L → RateLimiter Rate L
  cleanup rl = record rl { ips = [] }

  -- What the middleware answers at a time, if it does not pass the request on.
  unfoldable pub rate_limit : RateLimiter Rate L → Request → ℕ → Option Reply × RateLimiter Rate L
  unfolding get_limiter get_client_ip
  rate_limit rl r now =
      let ip = get_client_ip r in
      let (l, rl₁) = get_limiter rl ip in
      let (allowed, l') = allow l now in
      (
        (if allowed then none else some (respond_error 429 "rate limit exceeded")),
        record rl₁ { ips = put_ip ip l' rl₁.ips },
      )
