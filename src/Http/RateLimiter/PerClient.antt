-- ===== src/Http/RateLimiter/PerClient.antt =====
-- The limiter of requests (internal/transport/http/ratelimit.go) against its abstract view: a
-- limiter for each client.
use opentrusty.Prelude.{
  ==_iff, ==_refl, Bool, Bool-cases, List, Option, Option-cases, String, [], arith, false,
  if◌then◌else◌, inl, inr, none, refl, some, ℕ, ◌==◌, ◌∷◌, ◌≡◌,
}
use opentrusty.Http.{Reply, Request, respond_error}
use opentrusty.Http.RateLimiter.{
  RateLimiter, cleanup, get_client_ip, get_limiter, lookup_ip, put_ip, rate_limit,
}

lookup-put :
    {L : Type 0} (ip : String) (l : L) (ips : List (String × L))
    → lookup_ip ip (put_ip ip l ips) ≡ some l
lookup-put ip l [] = ground (arith, ==_refl ip)
lookup-put ip l ((key, k) ∷ more) = ground (arith, lookup-put ip l more)

lookup-put_other :
    {L : Type 0} (x ip : String) (l : L) (ips : List (String × L))
    → (ip == x) ≡ false
    → lookup_ip x (put_ip ip l ips) ≡ lookup_ip x ips
lookup-put_other x ip l [] h = ground arith
lookup-put_other x ip l ((key, k) ∷ more) h =
    ground (arith, lookup-put_other x ip l more h, ==_iff key ip)

-- What happens to the limiter: a request at a time, or a turn of the loop of the cleanup.
pub data Event : Type 0 where
  arrives : Request → ℕ → Event
  forgets : Event

abbrev or_new : {L : Type 0} → L → Option L → L
or_new d none = d
or_new d (some l) = l

module _ {Rate L : Type 0} (new_limiter : Rate → ℕ → L) (allow : L → ℕ → Bool × L) where
  -- The limiter of each client: one that is not stored is new.
  abbrev pub view : RateLimiter Rate L → String → L
  view rl ip = or_new (new_limiter rl.rps rl.burst) (lookup_ip ip rl.ips)

  -- The answers of the middleware.
  abbrev pub answers : RateLimiter Rate L → List Event → List (Option Reply)
  answers rl [] = []
  answers rl (arrives r now ∷ more) =
      let (answer, rl') = rate_limit new_limiter allow rl r now in answer ∷ answers rl' more
  answers rl (forgets ∷ more) = answers (cleanup new_limiter allow rl) more

  abbrev answer_of : Bool → Option Reply
  answer_of allowed = if allowed then none else some (respond_error 429 "rate limit exceeded")

  -- The answers when there is a limiter for each client: a request asks that of its address and
  -- touches no other, and the cleanup makes all of them new.
  abbrev pub ideal : L → (String → L) → List Event → List (Option Reply)
  ideal fresh s [] = []
  ideal fresh s (arrives r now ∷ more) =
      let ip = get_client_ip r in
      let (allowed, l) = allow (s ip) now in
      answer_of allowed ∷ ideal fresh (λ x. if ip == x then l else s x) more
  ideal fresh s (forgets ∷ more) = ideal fresh (λ x. fresh) more

  put_lem :
      (ip x : String) (l d : L) (ips : List (String × L))
      → or_new d (lookup_ip x (put_ip ip l ips))
        ≡ (if ip == x then l else or_new d (lookup_ip x ips))
  put_lem ip x l d ips = elim (Bool-cases (ip == x)) [
    | inl e ↦ ground (arith, lookup-put ip l ips, ==_iff ip x)
    | inr e ↦ ground (arith, lookup-put_other x ip l ips e)
  ]

  -- What a request leaves of the limiters.
  record Answered (rl : RateLimiter Rate L) (r : Request) (now : ℕ) : Type 0 where
    answered :
        (rate_limit new_limiter allow rl r now).0
        ≡ answer_of (allow (view rl (get_client_ip r)) now).0
    others :
        (x : String)
        → view (rate_limit new_limiter allow rl r now).1 x
          ≡ (if get_client_ip r == x then (allow (view rl (get_client_ip r)) now).1 else view rl x)
    same_rate : (rate_limit new_limiter allow rl r now).1.rps ≡ rl.rps
    same_burst : (rate_limit new_limiter allow rl r now).1.burst ≡ rl.burst

  rate_limit_lem : (rl : RateLimiter Rate L) (r : Request) (now : ℕ) → Answered rl r now
  unfolding rate_limit get_limiter
  rate_limit_lem rl r now =
      let ip = get_client_ip r in
      let fresh = new_limiter rl.rps rl.burst in
      elim (Option-cases (lookup_ip ip rl.ips)) [
        | inl e ↦ record {
          answered = ground arith;
          others = λ x. ground (
            arith,
            put_lem ip x (allow fresh now).1 fresh (put_ip ip fresh rl.ips),
            put_lem ip x fresh fresh rl.ips,
          );
          same_rate = ground arith;
          same_burst = ground arith;
        }
        | inr (l, e) ↦ record {
          answered = ground arith;
          others = λ x. ground (arith, put_lem ip x (allow l now).1 fresh rl.ips);
          same_rate = ground arith;
          same_burst = ground arith;
        }
      ]

  -- Whatever arrives, the answers of the middleware are those of a limiter for each client, if those
  -- hold at first what the table holds: what a client is answered depends on its own requests and
  -- the cleanups alone.
  pub answers-ideal :
      (events : List Event) (rl : RateLimiter Rate L) (s : String → L)
      → ((x : String) → view rl x ≡ s x)
      → answers rl events ≡ ideal (new_limiter rl.rps rl.burst) s events
  unfolding cleanup
  answers-ideal [] rl s h = refl
  answers-ideal (forgets ∷ more) rl s h =
      answers-ideal more (cleanup new_limiter allow rl) (λ x. new_limiter rl.rps rl.burst)
        (λ x. refl)
  answers-ideal (arrives r now ∷ more) rl s h =
      let ip = get_client_ip r in
      let a = rate_limit_lem rl r now in
      let next = (rate_limit new_limiter allow rl r now).1 in
      let s' : String → L = λ x. if ip == x then (allow (s ip) now).1 else s x in
      let rest = answers-ideal more next s' (λ x. ground (arith, a.others x, h x, h ip)) in
      ground (arith, a.answered, rest, a.same_rate, a.same_burst, h ip)
