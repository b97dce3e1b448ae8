-- ===== src/Api/Examples.antt =====
-- Concrete runs of the rate limits of cmd/api/middleware.go.
use cryptofunk.Prelude.{
  false, str_eq, ℕ, ◌+◌, ◌*◌, inl, ◌<◌, ◌≡◌, refl, String, true, none, List, [], ◌∷◌, arith,
}
use cryptofunk.Prelude.Dict.{lookup, insert, erase}
use cryptofunk.Api.RateLimit.{
  epoch, second, middleware, check, check_entry, is_idle, delete_entry, has_valid_requests,
  oldest_from, RateLimiter, RateLimiterMiddleware, order_endpoint, read_endpoint, limiter_of,
  new_rate_limiter_middleware, default_rate_limiter_config, new_rate_limiter, check_entry,
  cleanup_limiter, check, cleanup_entries, has_valid_requests,
}
use cryptofunk.Api.RateLimit.Reference.{accepted, reference, times_of, accepted-is_reference}
use cryptofunk.Api.RateLimit.Limit.{IsLimited, accepted-IsLimited}
use cryptofunk.Api.RateLimit.Reset.{told-is_enough}
use cryptofunk.Api.RateLimit.Endpoints.{Request, served, requests_to, served-accepted}
use cryptofunk.Api.RateLimit.Cleanup.{after, delete_entry-forgets}

-- Two requests in ten nanoseconds, of two addresses.
abbrev requests : List (ℕ × String)
requests = (1, "a") ∷ (2, "b") ∷ (3, "a") ∷ (4, "a") ∷ (11, "a") ∷ []

accepted_of_a : accepted "a" requests (new_rate_limiter 2 10) ≡ 1 ∷ 3 ∷ 11 ∷ []
unfolding accepted new_rate_limiter check check_entry lookup insert
accepted_of_a = refl

accepted-is_reference_example :
    accepted "a" requests (new_rate_limiter 2 10) ≡ reference 2 10 [] (times_of "a" requests)
accepted-is_reference_example = accepted-is_reference 2 10 "a" requests (ground arith)

accepted-IsLimited_example : IsLimited 2 10 (accepted "a" requests (new_rate_limiter 2 10))
accepted-IsLimited_example = accepted-IsLimited 2 10 "a" requests (ground arith)

-- Two requests a second in each ten seconds; both were used 9 and 7.5 seconds ago.
abbrev used_up : RateLimiter
used_up = record {
  entries = ("a", 62135596801000000000 ∷ 62135596802500000000 ∷ []) ∷ [];
  max_requests = 2;
  window = 10000000000;
}

told-is_enough_example :
    let (rl', headers, verdict) =
      middleware 62135596810000000000 62135596810000000000 "a" used_up in
    (62135596810000000000 < (headers.reset + epoch + 1) * second)
    × ((check 62135596812000000000 "a" rl').1.allowed ≡ true)
unfolding middleware check check_entry lookup insert oldest_from
told-is_enough_example =
    told-is_enough 62135596810000000000 62135596810000000000 1 62135596812000000000 "a" used_up
      (omega arith) (ground arith) (ground arith) refl (inl (ground arith))

abbrev busy : RateLimiter
busy = record { entries = ("a", 1 ∷ 3 ∷ []) ∷ ("b", 22 ∷ []) ∷ []; max_requests = 2; window = 10 }

cleanup-busy : (cleanup_limiter 23 busy).entries ≡ ("b", 22 ∷ []) ∷ []
unfolding cleanup_limiter cleanup_entries has_valid_requests erase
cleanup-busy = refl

-- The address is used again between the test of its entry and the deletion.
abbrev between : List (ℕ × String)
between = (24, "a") ∷ (25, "a") ∷ []

abbrev afterwards : List (ℕ × String)
afterwards = (26, "a") ∷ (27, "b") ∷ []

delete_entry-forgets_example :
    (accepted "a" afterwards (delete_entry "a" (after between busy)) ≡ accepted "a" afterwards busy)
    × ((other : String)
        → str_eq "a" other ≡ false
        → accepted other afterwards (delete_entry "a" (after between busy))
          ≡ accepted other afterwards (after between busy))
unfolding is_idle lookup has_valid_requests
delete_entry-forgets_example =
    delete_entry-forgets 23 "a" between afterwards busy refl (ground arith)

abbrev middlewares : RateLimiterMiddleware
middlewares = new_rate_limiter_middleware none

abbrev mixed : List Request
mixed = (order_endpoint, 1, 1, "a") ∷ (read_endpoint, 2, 2, "a") ∷ (order_endpoint, 3, 3, "b") ∷ []

served-accepted_example :
    served order_endpoint "a" mixed middlewares
    ≡ accepted "a" (requests_to order_endpoint mixed) (limiter_of order_endpoint middlewares)
served-accepted_example =
    served-accepted order_endpoint "a" mixed middlewares
      (unfold new_rate_limiter_middleware default_rate_limiter_config in refl)
