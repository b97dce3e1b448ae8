-- ===== src/Api/RateLimit/Reference.antt =====
-- The limiter against one that remembers every accepted request (cmd/api/middleware.go): it
-- forgets requests that have left the window, and that changes no decision.
use cryptofunk.Prelude.{
  ℕ, ◌≤◌, ◌≡◌, refl, sym, ap, subst, ◌∙◌, inl, inr, String, Bool, true, false, ◌&&◌, List, [], ◌∷◌,
  ◌++◌, ltb, if◌then◌else◌, arith, Bool-cases, length, keep, keep-append, str_eq, eq_iff,
}
use cryptofunk.Prelude.Dict.{lookup, lookup-insert}
use cryptofunk.Api.RateLimit.{
  RateLimiter, new_rate_limiter, in_window, requests_of, check_entry, check,
}

-- A request is accepted if fewer than `max` accepted ones are younger than the window.
unfoldable pub reference : ℕ → ℕ → List ℕ → List ℕ → List ℕ
reference max window log [] = []
reference max window log (now ∷ times) =
    let yes_ = now ∷ reference max window (log ++ now ∷ []) times in
    let no_ = reference max window log times in
    if ltb (length (keep (in_window window now) log)) max then yes_ else no_

-- The times of the requests of one address.
unfoldable pub times_of : String → List (ℕ × String) → List ℕ
times_of ip [] = []
times_of ip ((now, who) ∷ rest) =
    let others = times_of ip rest in if str_eq who ip then now ∷ others else others

-- The times of the requests of one address that the limiter accepts.
unfoldable pub accepted : String → List (ℕ × String) → RateLimiter → List ℕ
accepted ip [] rl = []
accepted ip ((now, who) ∷ rest) rl =
    let others = accepted ip rest (check now who rl).0 in
    if str_eq who ip && (check now who rl).1.allowed then now ∷ others else others

-- The requests come in the order of the clock.
abbrev pub InOrder : ℕ → List (ℕ × String) → Type 0
InOrder t [] = Unit
InOrder t ((now, who) ∷ rest) = (t ≤ now) × InOrder now rest

unfoldable pub entry_of : String → RateLimiter → List ℕ
entry_of ip rl = requests_of (lookup ip rl.entries)

keep-keep :
    (w s t : ℕ) (xs : List ℕ)
    → s ≤ t
    → keep (in_window w t) (keep (in_window w s) xs) ≡ keep (in_window w t) xs
keep-keep w s t [] l = refl
keep-keep w s t (x ∷ xs) l = ground (arith, keep-keep w s t xs l)

entry_of-check_ne :
    (now : ℕ) (who ip : String) (rl : RateLimiter)
    → str_eq who ip ≡ false
    → entry_of ip (check now who rl).0 ≡ entry_of ip rl
unfolding check entry_of
entry_of-check_ne now who ip rl n = rw lookup-insert (rw n)

entry_of-check :
    (now : ℕ) (who ip : String) (rl : RateLimiter)
    → str_eq who ip ≡ true
    → (entry_of ip (check now who rl).0
        ≡ (check_entry rl.max_requests rl.window now (entry_of ip rl)).0)
      × ((check now who rl).1 ≡ (check_entry rl.max_requests rl.window now (entry_of ip rl)).1)
unfolding check entry_of
entry_of-check now who ip rl e =
    let same : who ≡ ip = (eq_iff who ip).0 e in (rw lookup-insert (rw e (rw same)), rw same)

settings-check :
    (now : ℕ) (who : String) (rl : RateLimiter)
    → ((check now who rl).0.max_requests ≡ rl.max_requests)
      × ((check now who rl).0.window ≡ rl.window)
unfolding check
settings-check now who rl = (refl, refl)

-- The entry and the log agree about all windows that end at `t` or later.
unfoldable pub Agrees : ℕ → ℕ → List ℕ → List ℕ → Type 0
Agrees w t requests log =
    (now : ℕ) → t ≤ now → keep (in_window w now) requests ≡ keep (in_window w now) log

module _ (max w : ℕ) where
  check_entry-allowed :
      (now : ℕ) (requests : List ℕ)
      → (check_entry max w now requests).1.allowed
        ≡ ltb (length (keep (in_window w now) requests)) max
  unfolding check_entry
  check_entry-allowed now requests = ground arith

  check_entry-requests :
      (now : ℕ) (requests : List ℕ)
      → (check_entry max w now requests).0 ≡ (
          if ltb (length (keep (in_window w now) requests)) max
          then keep (in_window w now) requests ++ now ∷ []
          else keep (in_window w now) requests)
  unfolding check_entry
  check_entry-requests now requests = ground arith

  Agrees-accept :
      (t now : ℕ) (requests log : List ℕ)
      → t ≤ now
      → Agrees w t requests log
      → Agrees w now (keep (in_window w now) requests ++ now ∷ []) (log ++ now ∷ [])
  unfolding Agrees
  Agrees-accept t now requests log l a later l' =
      keep-append (in_window w later) (keep (in_window w now) requests) (now ∷ [])
      ∙ ap (λ r. r ++ keep (in_window w later) (now ∷ []))
          (keep-keep w now later requests l' ∙ a later (omega arith))
      ∙ sym (keep-append (in_window w later) log (now ∷ []))

  Agrees-refuse :
      (t now : ℕ) (requests log : List ℕ)
      → t ≤ now
      → Agrees w t requests log
      → Agrees w now (keep (in_window w now) requests) log
  unfolding Agrees
  Agrees-refuse t now requests log l a later l' =
      keep-keep w now later requests l' ∙ a later (omega arith)

  Agrees-later :
      (t now : ℕ) (requests log : List ℕ)
      → t ≤ now
      → Agrees w t requests log
      → Agrees w now requests log
  unfolding Agrees
  Agrees-later t now requests log l a later l' = a later (omega arith)

  pub record Ready (ip : String) (t : ℕ) (log : List ℕ) (rl : RateLimiter) : Type 0 where
    pub same_max : rl.max_requests ≡ max
    pub same_window : rl.window ≡ w
    pub agrees : Agrees w t (entry_of ip rl) log

  abbrev has_room : ℕ → List ℕ → Bool
  has_room now log = ltb (length (keep (in_window w now) log)) max

  module _ (ip : String) where
    module _ (now t : ℕ) (who : String) (log : List ℕ) (rl : RateLimiter)
        (mine : str_eq who ip ≡ true) (later : t ≤ now) (r : Ready ip t log rl) where
      same_room : has_room now (entry_of ip rl) ≡ has_room now log
      unfolding Agrees
      same_room = ap (λ l. ltb (length l) max) (r.agrees now later)

      entry_after : entry_of ip (check now who rl).0 ≡ (check_entry max w now (entry_of ip rl)).0
      entry_after =
          (entry_of-check now who ip rl mine).0
          ∙ (λ i. (check_entry (r.same_max i) (r.same_window i) now (entry_of ip rl)).0)

      allowed_after : (check now who rl).1.allowed ≡ has_room now log
      allowed_after =
          ap (λ info. info.allowed) (entry_of-check now who ip rl mine).1
          ∙ (λ i. (check_entry (r.same_max i) (r.same_window i) now (entry_of ip rl)).1.allowed)
          ∙ check_entry-allowed now (entry_of ip rl)
          ∙ same_room

      Ready-after :
          (log' entry' : List ℕ)
          → (check_entry max w now (entry_of ip rl)).0 ≡ entry'
          → Agrees w now entry' log'
          → Ready ip now log' (check now who rl).0
      Ready-after log' entry' e a = record {
        same_max = (settings-check now who rl).0 ∙ r.same_max;
        same_window = (settings-check now who rl).1 ∙ r.same_window;
        agrees = subst (λ (x : List ℕ). Agrees w now x log') (sym (entry_after ∙ e)) a;
      }

      check-accepts :
          has_room now log ≡ true
          → ((check now who rl).1.allowed ≡ true)
            × Ready ip now (log ++ now ∷ []) (check now who rl).0
      check-accepts room = (
        allowed_after ∙ room,
        Ready-after (log ++ now ∷ []) (keep (in_window w now) (entry_of ip rl) ++ now ∷ [])
            (check_entry-requests now (entry_of ip rl) ∙ rw (same_room ∙ room))
            (Agrees-accept t now (entry_of ip rl) log later r.agrees),
      )

      check-refuses :
          has_room now log ≡ false
          → ((check now who rl).1.allowed ≡ false) × Ready ip now log (check now who rl).0
      check-refuses full = (
        allowed_after ∙ full,
        Ready-after log (keep (in_window w now) (entry_of ip rl))
            (check_entry-requests now (entry_of ip rl) ∙ rw (same_room ∙ full))
            (Agrees-refuse t now (entry_of ip rl) log later r.agrees),
      )

    pub accepted-reference :
        (reqs : List (ℕ × String)) (t : ℕ) (log : List ℕ) (rl : RateLimiter)
        → InOrder t reqs
        → Ready ip t log rl
        → accepted ip reqs rl ≡ reference max w log (times_of ip reqs)
    unfolding accepted reference times_of
    accepted-reference [] t log rl o r = refl
    accepted-reference ((now, who) ∷ rest) t log rl o r =
        let (m, v) = settings-check now who rl in
        elim (Bool-cases (str_eq who ip)) [
          | inr other ↦
              let ready : Ready ip now log (check now who rl).0 = record {
                same_max = m ∙ r.same_max;
                same_window = v ∙ r.same_window;
                agrees =
                    subst (λ (x : List ℕ). Agrees w now x log)
                      (sym (entry_of-check_ne now who ip rl other))
                      (Agrees-later t now (entry_of ip rl) log o.0 r.agrees);
              } in
              rw other (accepted-reference rest now log (check now who rl).0 o.1 ready)
          | inl mine ↦ elim (Bool-cases (has_room now log)) [
            | inl room ↦
                let (a, ready) = check-accepts now t who log rl mine o.0 r room in
                rw mine (
                  rw a (
                    rw (room, reference)
                      (ap (λ l. now ∷ l)
                        (accepted-reference rest now (log ++ now ∷ []) (check now who rl).0 o.1
                          ready))))
            | inr full ↦
                let (a, ready) = check-refuses now t who log rl mine o.0 r full in
                rw mine (
                  rw a (
                    rw (full, reference)
                      (accepted-reference rest now log (check now who rl).0 o.1 ready)))
          ]
        ]

-- What the limiter accepts of one address, whatever the other addresses send, is what a limiter
-- that remembers all its accepted requests would accept of that address, when the requests come
-- in the order of the clock.
pub accepted-is_reference :
    (max w : ℕ) (ip : String) (reqs : List (ℕ × String))
    → InOrder 0 reqs
    → accepted ip reqs (new_rate_limiter max w) ≡ reference max w [] (times_of ip reqs)
unfolding new_rate_limiter
accepted-is_reference max w ip reqs o =
    accepted-reference max w ip reqs 0 [] (new_rate_limiter max w) o (record {
      same_max = refl;
      same_window = refl;
      agrees = unfold Agrees entry_of lookup in λ now l. refl;
    })
