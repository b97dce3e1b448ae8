-- ===== src/Api/RateLimit/Endpoints.antt =====
-- The five limiters of cmd/api/middleware.go side by side.
use cryptofunk.Prelude.{
  ℕ, zero, suc, ◌≡◌, refl, sym, ap, ◌∙◌, inl, inr, String, Bool, true, false, ◌&&◌, Option, none,
  some, List, [], ◌∷◌, ◌==◌, if◌then◌else◌, not, arith, Bool-cases, str_eq,
}
use cryptofunk.Api.RateLimit.{
  RateLimiter, RateLimiterMiddleware, Endpoint, global_endpoint, control_endpoint, order_endpoint,
  read_endpoint, search_endpoint, Headers, Verdict, next, too_many_requests, check, middleware,
  limiter_of, put_limiter, handle,
}
use cryptofunk.Api.RateLimit.Reference.{accepted}

number_of : Endpoint → ℕ
number_of global_endpoint = 0
number_of control_endpoint = 1
number_of order_endpoint = 2
number_of read_endpoint = 3
number_of search_endpoint = 4

pub same_endpoint : Endpoint → Endpoint → Bool
unfolding number_of
same_endpoint j k = number_of j == number_of k

-- A request: where it goes, when it comes and when a refusal of it is written, and whose it is.
abbrev pub Request : Type 0
Request = Endpoint × ℕ × ℕ × String

abbrev pub passes : Verdict → Bool
passes next = true
passes (too_many_requests seconds) = false

-- The times of the requests of one address to one kind of endpoint that go on to the handler.
unfoldable pub served : Endpoint → String → List Request → RateLimiterMiddleware → List ℕ
unfolding same_endpoint
served k ip [] rlm = []
served k ip ((j, now, answered_at, who) ∷ rest) rlm =
    let (rlm', headers, verdict) = handle j now answered_at who rlm in
    let others = served k ip rest rlm' in
    if same_endpoint j k && (str_eq who ip && passes verdict) then now ∷ others else others

-- The requests to one kind of endpoint.
unfoldable pub requests_to : Endpoint → List Request → List (ℕ × String)
unfolding same_endpoint
requests_to k [] = []
requests_to k ((j, now, answered_at, who) ∷ rest) =
    let others = requests_to k rest in if same_endpoint j k then (now, who) ∷ others else others

limiter_of-put :
    (j k : Endpoint) (rl : RateLimiter) (rlm : RateLimiterMiddleware)
    → limiter_of k (put_limiter j rl rlm) ≡ (if same_endpoint j k then rl else limiter_of k rlm)
unfolding limiter_of put_limiter same_endpoint
limiter_of-put global_endpoint global_endpoint rl rlm = refl
limiter_of-put global_endpoint control_endpoint rl rlm = refl
limiter_of-put global_endpoint order_endpoint rl rlm = refl
limiter_of-put global_endpoint read_endpoint rl rlm = refl
limiter_of-put global_endpoint search_endpoint rl rlm = refl
limiter_of-put control_endpoint global_endpoint rl rlm = refl
limiter_of-put control_endpoint control_endpoint rl rlm = refl
limiter_of-put control_endpoint order_endpoint rl rlm = refl
limiter_of-put control_endpoint read_endpoint rl rlm = refl
limiter_of-put control_endpoint search_endpoint rl rlm = refl
limiter_of-put order_endpoint global_endpoint rl rlm = refl
limiter_of-put order_endpoint control_endpoint rl rlm = refl
limiter_of-put order_endpoint order_endpoint rl rlm = refl
limiter_of-put order_endpoint read_endpoint rl rlm = refl
limiter_of-put order_endpoint search_endpoint rl rlm = refl
limiter_of-put read_endpoint global_endpoint rl rlm = refl
limiter_of-put read_endpoint control_endpoint rl rlm = refl
limiter_of-put read_endpoint order_endpoint rl rlm = refl
limiter_of-put read_endpoint read_endpoint rl rlm = refl
limiter_of-put read_endpoint search_endpoint rl rlm = refl
limiter_of-put search_endpoint global_endpoint rl rlm = refl
limiter_of-put search_endpoint control_endpoint rl rlm = refl
limiter_of-put search_endpoint order_endpoint rl rlm = refl
limiter_of-put search_endpoint read_endpoint rl rlm = refl
limiter_of-put search_endpoint search_endpoint rl rlm = refl

if_enabled :
    {A : Type 0} (off on : A) (enabled : Bool)
    → enabled ≡ true
    → (if not enabled then off else on) ≡ on
if_enabled off on enabled e = rw e refl

passes_lem :
    (allowed : Bool) (seconds : ℕ)
    → passes (if not allowed then too_many_requests seconds else next) ≡ allowed
passes_lem true seconds = refl
passes_lem false seconds = refl

handle-enabled :
    (j : Endpoint) (now answered_at : ℕ) (who : String) (rlm : RateLimiterMiddleware)
    → rlm.enabled ≡ true
    → let (rl, info) = check now who (limiter_of j rlm) in
      ((handle j now answered_at who rlm).0 ≡ put_limiter j rl rlm)
      × (passes (handle j now answered_at who rlm).2 ≡ info.allowed)
unfolding handle middleware
handle-enabled j now answered_at who rlm e =
    let (rl, headers, verdict) = middleware now answered_at who (limiter_of j rlm) in
    let on =
      if_enabled {A = RateLimiterMiddleware × Option Headers × Verdict} (rlm, none, next)
        (put_limiter j rl rlm, some headers, verdict) rlm.enabled e in
    (
      ap (λ r. r.0) on,
      ap (λ r. passes r.2) on ∙ passes_lem (check now who (limiter_of j rlm)).1.allowed _,
    )

enabled-put :
    (j : Endpoint) (rl : RateLimiter) (rlm : RateLimiterMiddleware)
    → (put_limiter j rl rlm).enabled ≡ rlm.enabled
unfolding put_limiter
enabled-put global_endpoint rl rlm = refl
enabled-put control_endpoint rl rlm = refl
enabled-put order_endpoint rl rlm = refl
enabled-put read_endpoint rl rlm = refl
enabled-put search_endpoint rl rlm = refl

abbrev endpoint_at : ℕ → Endpoint
endpoint_at zero = global_endpoint
endpoint_at (suc zero) = control_endpoint
endpoint_at (suc (suc zero)) = order_endpoint
endpoint_at (suc (suc (suc zero))) = read_endpoint
endpoint_at (suc (suc (suc (suc n)))) = search_endpoint

endpoint_at-number_of : (j : Endpoint) → endpoint_at (number_of j) ≡ j
unfolding number_of
endpoint_at-number_of global_endpoint = refl
endpoint_at-number_of control_endpoint = refl
endpoint_at-number_of order_endpoint = refl
endpoint_at-number_of read_endpoint = refl
endpoint_at-number_of search_endpoint = refl

same_endpoint-eq : (j k : Endpoint) → same_endpoint j k ≡ true → j ≡ k
unfolding same_endpoint
same_endpoint-eq j k e =
    let numbers : number_of j ≡ number_of k = ground (arith, e) in
    sym (endpoint_at-number_of j) ∙ ap endpoint_at numbers ∙ endpoint_at-number_of k

-- With the limits switched on, what the requests of an address to one kind of endpoint get is what
-- the limiter of that kind alone gives them: the requests to the other kinds make no difference.
pub served-accepted :
    (k : Endpoint) (ip : String) (reqs : List Request) (rlm : RateLimiterMiddleware)
    → rlm.enabled ≡ true
    → served k ip reqs rlm ≡ accepted ip (requests_to k reqs) (limiter_of k rlm)
unfolding served accepted requests_to
served-accepted k ip [] rlm on = refl
served-accepted k ip ((j, now, answered_at, who) ∷ rest) rlm on =
    let (rl, info) = check now who (limiter_of j rlm) in
    let (left, verdict) = handle-enabled j now answered_at who rlm on in
    let rlm' = (handle j now answered_at who rlm).0 in
    let later =
      served-accepted k ip rest rlm' (ap (λ m. m.enabled) left ∙ enabled-put j rl rlm ∙ on) in
    let limiter : limiter_of k rlm' ≡ (if same_endpoint j k then rl else limiter_of k rlm) =
      ap (limiter_of k) left ∙ limiter_of-put j k rl rlm in
    elim (Bool-cases (same_endpoint j k)) [
      | inl e ↦
          let p : limiter_of j rlm ≡ limiter_of k rlm =
            ap (λ x. limiter_of x rlm) (same_endpoint-eq j k e) in
          let rest_same =
            later
            ∙ ap (accepted ip (requests_to k rest))
                (limiter ∙ rw e refl ∙ ap (λ l. (check now who l).0) p) in
          let allowed_same = verdict ∙ ap (λ l. (check now who l).1.allowed) p in
          rw e (λ i. if str_eq who ip && allowed_same i then now ∷ rest_same i else rest_same i)
      | inr e ↦ rw e (later ∙ ap (accepted ip (requests_to k rest)) (limiter ∙ rw e refl))
    ]
