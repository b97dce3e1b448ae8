-- ===== src/Api/RateLimit/Reset.antt =====
-- The reset time, and what a refused client is told of it (cmd/api/middleware.go).
use cryptofunk.Prelude.{
  String, str_eq, some, ◌∙◌, ℕ, ◌/◌, ◌*◌, ◌+◌, ◌≤◌, ◌<◌, ◌≡◌, ◌⊎◌, inl, inr, refl, Bool, true,
  false, List, [], ◌∷◌, ltb, ◌==◌, if◌then◌else◌, ◌||◌, arith, Bool-cases, length, keep, All,
  length-keep, ltb→lt, sym, subst, ap,
}
use text.Mathlib.TextEquality.{eq_iff}
use cryptofunk.Prelude.Dict.{lookup, lookup-insert}
use cryptofunk.Api.RateLimit.{
  RateLimiter, requests_of, check, middleware, too_many_requests, retry_after, epoch, second,
  in_window, oldest_from, check_entry,
}

abbrev pub Has : ℕ → List ℕ → Type 0
Has x [] = ⊥
Has x (y ∷ ys) = (x ≡ y) ⊎ Has x ys

oldest_from-Has :
    (o : ℕ) (xs : List ℕ)
    → 0 < o
    → All (λ x. 0 < x) xs
    → (oldest_from o xs ≡ o) ⊎ Has (oldest_from o xs) xs
unfolding oldest_from
oldest_from-Has o [] p h = inl refl
oldest_from-Has o (x ∷ xs) p h = elim (Bool-cases (o == 0 || ltb x o)) [
  | inl e ↦
      subst (λ (r : ℕ). (r ≡ o) ⊎ Has r (x ∷ xs))
        (sym (ap (λ b. oldest_from (if b then x else o) xs) e)) (inr (oldest_from-Has x xs h.0 h.1))
  | inr e ↦
      subst (λ (r : ℕ). (r ≡ o) ⊎ Has r (x ∷ xs))
        (sym (ap (λ b. oldest_from (if b then x else o) xs) e))
        (weaken (oldest_from o xs) (oldest_from-Has o xs p h.1))
]
  where
    weaken : (r : ℕ) → (r ≡ o) ⊎ Has r xs → (r ≡ o) ⊎ ((r ≡ x) ⊎ Has r xs)
    weaken r (inl e) = inl e
    weaken r (inr h) = inr (inr h)

All-keep_in : (p : ℕ → Bool) (xs : List ℕ) → All (λ x. 0 < x) xs → All (λ x. 0 < x) (keep p xs)
All-keep_in p [] h = tt
All-keep_in p (x ∷ xs) h = elim (Bool-cases (p x)) [
  | inl e ↦ rw e (h.0, All-keep_in p xs h.1)
  | inr e ↦ rw e (All-keep_in p xs h.1)
]

Has-pos : (x : ℕ) (xs : List ℕ) → All (λ y. 0 < y) xs → Has x xs → 0 < x
Has-pos x [] h m = absurd m
Has-pos x (y ∷ ys) h (inl e) = omega (arith, e)
Has-pos x (y ∷ ys) h (inr m) = Has-pos x ys h.1 m

Has-keep : (p : ℕ → Bool) (x : ℕ) (xs : List ℕ) → Has x (keep p xs) → p x ≡ true
Has-keep p x [] m = absurd m
Has-keep p x (y ∷ ys) m = elim (Bool-cases (p y)) [
  | inl e ↦ found (Has-keep p x ys) e (rw e at m)
  | inr e ↦ Has-keep p x ys (rw e at m)
]
  where
    found : (Has x (keep p ys) → p x ≡ true) → p y ≡ true → (x ≡ y) ⊎ Has x (keep p ys) → p x ≡ true
    found rec e (inl same) = rw same e
    found rec e (inr later) = rec later

keep-drops :
    (p : ℕ → Bool) (x : ℕ) (xs : List ℕ) → Has x xs → p x ≡ false → length (keep p xs) < length xs
keep-drops p x [] m e = absurd m
keep-drops p x (y ∷ ys) (inl same) e =
    let gone : p y ≡ false = rw (← same) e in rw gone (omega (arith, length-keep p ys))
keep-drops p x (y ∷ ys) (inr m) e = elim (Bool-cases (p y)) [
  | inl f ↦ rw f (omega (arith, keep-drops p x ys m e))
  | inr f ↦ rw f (omega (arith, keep-drops p x ys m e))
]

oldest-Has : (xs : List ℕ) → 0 < length xs → All (λ x. 0 < x) xs → Has (oldest_from 0 xs) xs
oldest-Has [] l h = absurd (omega arith)
oldest-Has (x ∷ xs) l h = unfold oldest_from in oldest_from-Has x xs h.0 h.1

module _ (max w now : ℕ) (requests : List ℕ) where
  abbrev valid : List ℕ
  valid = keep (in_window w now) requests

  refused_entry :
      (check_entry max w now requests).1.allowed ≡ false
      → ((check_entry max w now requests).0 ≡ valid) × (max ≤ length valid)
  unfolding check_entry
  refused_entry h = ground arith

  allowed_if : length valid < max → (check_entry max w now requests).1.allowed ≡ true
  unfolding check_entry
  allowed_if h = ground arith

  reset_at-oldest :
      0 < oldest_from 0 valid
      → (check_entry max w now requests).1.reset_at ≡ oldest_from 0 valid + w
  unfolding check_entry
  reset_at-oldest h = ground arith

-- From the reset time on, what was refused is accepted.
reset_at-enough :
    (max w now later : ℕ) (requests : List ℕ)
    → 0 < max
    → length requests ≤ max
    → All (λ x. 0 < x) requests
    → (check_entry max w now requests).1.allowed ≡ false
    → let (entry, info) = check_entry max w now requests in
      info.reset_at ≤ later
      → (now < info.reset_at) × ((check_entry max w later entry).1.allowed ≡ true)
reset_at-enough max w now later requests h l p refused late =
    let v = valid max w now requests in
    let (entry_is, full) = refused_entry max w now requests refused in
    let p' = All-keep_in (in_window w now) requests p in
    let oldest = oldest_from 0 v in
    let has = oldest-Has v (omega arith) p' in
    let is_pos = Has-pos oldest v p' has in
    let reset_is = reset_at-oldest max w now requests is_pos in
    let young = ltb→lt now (oldest + w) (Has-keep (in_window w now) oldest requests has) in
    let past : oldest + w ≤ later = omega (arith, reset_is, late) in
    let gone : in_window w later oldest ≡ false = ground (arith, past) in
    let fewer = keep-drops (in_window w later) oldest v has gone in
    let few = length-keep (in_window w now) requests in
    (
      omega (arith, reset_is, young),
      rw entry_is (allowed_if max w later v (omega (arith, fewer, few))),
    )

second_end : (t : ℕ) → t < (t / second + 1) * second
second_end t = omega arith

abbrev pub stored : String → RateLimiter → List ℕ
stored ip rl = requests_of (lookup ip rl.entries)

module _ (now later : ℕ) (ip : String) (rl : RateLimiter) where
  -- A check is that of the entry, and the next one is of what it left.
  check-entry :
      ((check now ip rl).1 ≡ (check_entry rl.max_requests rl.window now (stored ip rl)).1)
      × ((check later ip (check now ip rl).0).1
          ≡ (check_entry rl.max_requests rl.window later
              (check_entry rl.max_requests rl.window now (stored ip rl)).0).1)
  unfolding check
  check-entry =
      let entry = (check_entry rl.max_requests rl.window now (stored ip rl)).0 in
      let same : str_eq ip ip ≡ true = (eq_iff ip ip).1 refl in
      (
        refl,
        ap (λ o. (check_entry rl.max_requests rl.window later (requests_of o)).1)
            (lookup-insert ip ip entry rl.entries
              ∙ ap (λ b. if b then some entry else lookup ip rl.entries) same),
      )

refused-info :
    (now answered_at seconds : ℕ) (ip : String) (rl : RateLimiter)
    → (middleware now answered_at ip rl).2 ≡ too_many_requests seconds
    → let info = (check now ip rl).1 in
      (info.allowed ≡ false) × (seconds ≡ retry_after answered_at info.reset_at)
unfolding middleware
refused-info now answered_at seconds ip rl h = elim (Bool-cases (check now ip rl).1.allowed) [
  | inl e ↦ cc (rw e at h)
  | inr e ↦ (e, cc (rw e at h))
]

-- A client of a limit that is not 0 is refused, where its entry holds no more requests than the
-- limit, and none at the zero time. The second of Unix time that X-RateLimit-Reset tells it is not
-- over yet; and if no request of it comes in between, refused ones included, its request is accepted
-- at any time after that second is over, and at any time at least one second more than Retry-After
-- tells it after the answer. Both are told rounded down, so earlier it may be refused again.
pub told-is_enough :
    (now answered_at seconds later : ℕ) (ip : String) (rl : RateLimiter)
    → 0 < rl.max_requests
    → length (stored ip rl) ≤ rl.max_requests
    → All (λ x. 0 < x) (stored ip rl)
    → (middleware now answered_at ip rl).2 ≡ too_many_requests seconds
    → let (rl', headers, verdict) = middleware now answered_at ip rl in
      ((headers.reset + epoch + 1) * second ≤ later)
        ⊎ (answered_at + (seconds + 1) * second ≤ later)
      → (now < (headers.reset + epoch + 1) * second) × ((check later ip rl').1.allowed ≡ true)
unfolding middleware
told-is_enough now answered_at seconds later ip rl h l p refused late =
    let (out, wait) = refused-info now answered_at seconds ip rl refused in
    let (same, next) = check-entry now later ip rl in
    let reset = (check now ip rl).1.reset_at in
    let past : reset ≤ later = elim late [
      | inl header ↦ omega (arith, header)
      | inr waited ↦ rest_of wait waited
    ] in
    let (young, open_again) =
      reset_at-enough rl.max_requests rl.window now later (stored ip rl) h l p
        (ap (λ i. i.allowed) (sym same) ∙ out) (rw (← same) past) in
    (
      let soon : now < reset = rw same young in omega (arith, soon),
      ap (λ i. i.allowed) next ∙ open_again,
    )
  where
    rest_of :
        seconds ≡ retry_after answered_at (check now ip rl).1.reset_at
        → answered_at + (seconds + 1) * second ≤ later
        → (check now ip rl).1.reset_at ≤ later
    rest_of wait waited = ground (arith, wait, waited)
