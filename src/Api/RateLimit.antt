-- ===== src/Api/RateLimit.antt =====
-- cmd/api/middleware.go: the sliding-window rate limits by IP address, and the middleware that
-- applies them. A time is a count of nanoseconds after the zero `time.Time`. The map of entries
-- is a `sync.Map` whose entries have locks of their own; a check is one step here.
pub mod Reference
pub mod Limit
pub mod Reset
pub mod Cleanup
pub mod Endpoints
use cryptofunk.Prelude.{
  ℕ, ◌+◌, ◌-◌, ◌*◌, ◌/◌, String, Bool, true, false, not, ◌||◌, Option, none, some, List, [], ◌∷◌,
  ◌++◌, ltb, leb, ◌==◌, if◌then◌else◌, length, keep,
}
use cryptofunk.Prelude.Dict.{Dict, lookup, insert, erase}

abbrev pub second : ℕ
second = 1000000000

abbrev pub minute : ℕ
minute = 60 * second

pub record RateLimiterConfig : Type 0 where
  pub global_max_requests : ℕ
  pub global_window : ℕ
  pub control_max_requests : ℕ
  pub control_window : ℕ
  pub order_max_requests : ℕ
  pub order_window : ℕ
  pub read_max_requests : ℕ
  pub read_window : ℕ
  pub search_max_requests : ℕ
  pub search_window : ℕ
  pub enabled : Bool

unfoldable pub default_rate_limiter_config : RateLimiterConfig
default_rate_limiter_config = record {
  global_max_requests = 100;
  global_window = minute;
  control_max_requests = 10;
  control_window = minute;
  order_max_requests = 30;
  order_window = minute;
  read_max_requests = 60;
  read_window = minute;
  search_max_requests = 20;
  search_window = minute;
  enabled = true;
}

-- The name of a limiter only goes to the log.
pub record RateLimiter : Type 0 where
  pub entries : Dict (List ℕ)
  pub max_requests : ℕ
  pub window : ℕ

unfoldable pub new_rate_limiter : ℕ → ℕ → RateLimiter
new_rate_limiter max_requests window = record {
  entries = [];
  max_requests = max_requests;
  window = window;
}

pub record RateLimitInfo : Type 0 where
  pub allowed : Bool
  pub limit : ℕ
  pub remaining : ℕ
  pub reset_at : ℕ

-- `req.After(now.Add(-window))`
abbrev pub in_window : ℕ → ℕ → ℕ → Bool
in_window window now req = ltb now (req + window)

abbrev pub requests_of : Option (List ℕ) → List ℕ
requests_of none = []
requests_of (some requests) = requests

-- The oldest of the valid requests, as the loop finds it: the zero time stands for none yet.
unfoldable pub oldest_from : ℕ → List ℕ → ℕ
oldest_from oldest [] = oldest
oldest_from oldest (req ∷ rest) =
    oldest_from (if oldest == 0 || ltb req oldest then req else oldest) rest

-- The part of `check` under the lock of the entry: the new requests of the entry, and the answer.
unfoldable pub check_entry : ℕ → ℕ → ℕ → List ℕ → List ℕ × RateLimitInfo
check_entry max_requests window now requests =
    let valid = keep (in_window window now) requests in
    let oldest = oldest_from 0 valid in
    let reset_at = if oldest == 0 then now + window else oldest + window in
    if leb max_requests (length valid)
    then (
      valid,
      record { allowed = false; limit = max_requests; remaining = 0; reset_at = reset_at },
    )
    else (
      valid ++ now ∷ [],
      record {
        allowed = true;
        limit = max_requests;
        remaining = max_requests - length (valid ++ now ∷ []);
        reset_at = reset_at;
      },
    )

unfoldable pub check : ℕ → String → RateLimiter → RateLimiter × RateLimitInfo
check now ip rl =
    let (requests, info) =
      check_entry rl.max_requests rl.window now (requests_of (lookup ip rl.entries)) in
    (record rl { entries = insert ip requests rl.entries }, info)

unfoldable pub allow : ℕ → String → RateLimiter → RateLimiter × Bool
allow now ip rl = let (rl', info) = check now ip rl in (rl', info.allowed)

-- What the middleware does with a request: it goes on to the handler, or it is answered by 429.
pub data Verdict : Type 0 where
  next : Verdict
  too_many_requests : ℕ → Verdict

-- The headers that are always set; the last one in seconds of Unix time.
pub record Headers : Type 0 where
  pub limit : ℕ
  pub remaining : ℕ
  pub reset : ℕ

-- Seconds from the zero `time.Time` to the Unix epoch; the clock is after it.
abbrev pub epoch : ℕ
epoch = 62135596800

abbrev pub unix : ℕ → ℕ
unix t = t / second - epoch

-- `int(time.Until(ResetAt).Seconds())`, at least 1.
abbrev pub retry_after : ℕ → ℕ → ℕ
retry_after now reset_at = let wait = (reset_at - now) / second in if ltb wait 1 then 1 else wait

-- `Middleware`; the second time is the clock when a refusal is written.
unfoldable pub middleware : ℕ → ℕ → String → RateLimiter → RateLimiter × Headers × Verdict
middleware now answered_at ip rl =
    let (rl', info) = check now ip rl in
    (
      rl',
      record { limit = info.limit; remaining = info.remaining; reset = unix info.reset_at },
      if not info.allowed then too_many_requests (retry_after answered_at info.reset_at) else next,
    )

pub record RateLimiterMiddleware : Type 0 where
  pub global : RateLimiter
  pub control : RateLimiter
  pub order : RateLimiter
  pub read : RateLimiter
  pub search_limiter : RateLimiter
  pub enabled : Bool

abbrev or_default_config : Option RateLimiterConfig → RateLimiterConfig
or_default_config none = default_rate_limiter_config
or_default_config (some config) = config

-- `NewRateLimiterMiddleware`, where a nil configuration is `none`.
unfoldable pub new_rate_limiter_middleware : Option RateLimiterConfig → RateLimiterMiddleware
new_rate_limiter_middleware option =
    let config = or_default_config option in
    record {
      global = new_rate_limiter config.global_max_requests config.global_window;
      control = new_rate_limiter config.control_max_requests config.control_window;
      order = new_rate_limiter config.order_max_requests config.order_window;
      read = new_rate_limiter config.read_max_requests config.read_window;
      search_limiter = new_rate_limiter config.search_max_requests config.search_window;
      enabled = config.enabled;
    }

-- The five kinds of endpoints: GlobalMiddleware, ControlMiddleware and so on.
pub data Endpoint : Type 0 where
  global_endpoint control_endpoint order_endpoint read_endpoint search_endpoint : Endpoint

unfoldable pub limiter_of : Endpoint → RateLimiterMiddleware → RateLimiter
limiter_of global_endpoint rlm = rlm.global
limiter_of control_endpoint rlm = rlm.control
limiter_of order_endpoint rlm = rlm.order
limiter_of read_endpoint rlm = rlm.read
limiter_of search_endpoint rlm = rlm.search_limiter

put_limiter : Endpoint → RateLimiter → RateLimiterMiddleware → RateLimiterMiddleware
put_limiter global_endpoint rl rlm = record rlm { global = rl }
put_limiter control_endpoint rl rlm = record rlm { control = rl }
put_limiter order_endpoint rl rlm = record rlm { order = rl }
put_limiter read_endpoint rl rlm = record rlm { read = rl }
put_limiter search_endpoint rl rlm = record rlm { search_limiter = rl }

-- A request at an endpoint of that kind: with the limits switched off it goes on, with no header.
unfoldable pub handle :
    Endpoint
    → ℕ
    → ℕ
    → String
    → RateLimiterMiddleware
    → RateLimiterMiddleware × Option Headers × Verdict
unfolding limiter_of put_limiter
handle kind now answered_at ip rlm =
    if not rlm.enabled
    then (rlm, none, next)
    else (let (rl, headers, verdict) = middleware now answered_at ip (limiter_of kind rlm) in
        (put_limiter kind rl rlm, some headers, verdict))

-- Whether an entry has a request in the last two windows.
unfoldable pub has_valid_requests : ℕ → ℕ → List ℕ → Bool
has_valid_requests window now [] = false
has_valid_requests window now (req ∷ rest) =
    let later = has_valid_requests window now rest in
    if ltb now (req + window * 2) then true else later

abbrev pub is_idle_entry : ℕ → ℕ → Option (List ℕ) → Bool
is_idle_entry window now none = false
is_idle_entry window now (some requests) = not (has_valid_requests window now requests)

-- The two halves of what the cleanup does to an entry, between which other calls can come: the test,
-- under the lock of the entry, and the deletion, after that.
unfoldable pub is_idle : ℕ → String → RateLimiter → Bool
unfolding has_valid_requests
is_idle now ip rl = is_idle_entry rl.window now (lookup ip rl.entries)

unfoldable pub delete_entry : String → RateLimiter → RateLimiter
delete_entry ip rl = record rl { entries = erase ip rl.entries }

-- All entries, when no other call comes in between.
unfoldable pub cleanup_entries : ℕ → ℕ → Dict (List ℕ) → Dict (List ℕ)
cleanup_entries window now [] = []
cleanup_entries window now ((ip, requests) ∷ rest) =
    let kept = cleanup_entries window now rest in
    if has_valid_requests window now requests then (ip, requests) ∷ kept else erase ip kept

unfoldable pub cleanup_limiter : ℕ → RateLimiter → RateLimiter
cleanup_limiter now rl = record rl { entries = cleanup_entries rl.window now rl.entries }

unfoldable pub cleanup_old_entries : ℕ → RateLimiterMiddleware → RateLimiterMiddleware
cleanup_old_entries now rlm = record rlm {
  global = cleanup_limiter now rlm.global;
  control = cleanup_limiter now rlm.control;
  order = cleanup_limiter now rlm.order;
  read = cleanup_limiter now rlm.read;
  search_limiter = cleanup_limiter now rlm.search_limiter;
}
