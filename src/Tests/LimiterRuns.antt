-- ===== src/Tests/LimiterRuns.antt =====
-- Requests of two clients to a limiter that allows one request for each unit of its burst.
use opentrusty.Prelude.{
  Bool, List, String, [], false, none, refl, some, suc, true, zero, ℕ, ◌∷◌, ◌≡◌,
}
use opentrusty.Http.{Request, respond_error}
use opentrusty.Http.RateLimiter.{RateLimiter, get_client_ip}
use opentrusty.Http.RateLimiter.PerClient.{Event, answers, answers-ideal, arrives, forgets}
use opentrusty.Tests.HttpScene.{asked_query, request_of}

abbrev allow_left : ℕ → ℕ → Bool × ℕ
allow_left zero now = (false, 0)
allow_left (suc n) now = (true, n)

abbrev limiter : RateLimiter ℕ ℕ
limiter = record { ips = []; rps = 1; burst = 1 }

abbrev from_client : String → Request
from_client ip = record (request_of asked_query) { remote_addr = ip }

abbrev seen : List Event
seen =
    arrives (from_client "a") 1
    ∷ arrives (from_client "a") 2
    ∷ arrives (from_client "b") 3
    ∷ forgets
    ∷ arrives (from_client "a") 4
    ∷ []

answers-ideal_example :
    answers (λ rps burst. burst) allow_left limiter seen
    ≡ none ∷ some (respond_error 429 "rate limit exceeded") ∷ none ∷ none ∷ []
unfolding get_client_ip
answers-ideal_example =
    answers-ideal (λ rps burst. burst) allow_left seen limiter (λ x. 1) (λ x. refl)
