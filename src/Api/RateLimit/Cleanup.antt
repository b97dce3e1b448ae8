-- ===== src/Api/RateLimit/Cleanup.antt =====
-- Dropping the entries of idle addresses (cmd/api/middleware.go, CleanupOldEntries), with requests
-- between the test of an entry and its deletion.
use cryptofunk.Prelude.{
  true, str_eq, ℕ, ◌≤◌, ◌≡◌, refl, sym, ap, ◌∙◌, inl, inr, String, false, Option, none, some, List,
  [], ◌∷◌, if◌then◌else◌, arith, Bool-cases, keep,
}
use text.Mathlib.TextEquality.{eq_iff}
use cryptofunk.Prelude.Dict.{Dict, lookup, lookup-erase}
use cryptofunk.Api.RateLimit.{
  check, is_idle, is_idle_entry, delete_entry, RateLimiter, in_window, requests_of,
  has_valid_requests, cleanup_entries, cleanup_limiter,
}
use cryptofunk.Api.RateLimit.Reference.{accepted, InOrder, entry_of, Agrees, accepted-reference}

abbrev kept_entry : ℕ → ℕ → Option (List ℕ) → Option (List ℕ)
kept_entry w now none = none
kept_entry w now (some requests) = if has_valid_requests w now requests then some requests else none

lookup-cleanup :
    (w now : ℕ) (ip : String) (m : Dict (List ℕ))
    → lookup ip (cleanup_entries w now m) ≡ kept_entry w now (lookup ip m)
unfolding lookup cleanup_entries
lookup-cleanup w now ip [] = refl
lookup-cleanup w now ip ((j, requests) ∷ m) =
    elim (Bool-cases (has_valid_requests w now requests)) [
      | inl e ↦ rw e (ground (arith, lookup-cleanup w now ip m))
      | inr e ↦
          rw e (
            lookup-erase j ip (cleanup_entries w now m) ∙ ground (arith, lookup-cleanup w now ip m))
    ]

-- An entry with nothing in two windows has nothing in one, from then on.
no_valid-keep :
    (w now later : ℕ) (requests : List ℕ)
    → now ≤ later
    → has_valid_requests w now requests ≡ false
    → keep (in_window w later) requests ≡ []
unfolding has_valid_requests
no_valid-keep w now later [] l h = refl
no_valid-keep w now later (x ∷ xs) l h = ground (arith, no_valid-keep w now later xs l)

cleanup-Agrees :
    (now : ℕ) (ip : String) (rl : RateLimiter)
    → Agrees rl.window now (entry_of ip (cleanup_limiter now rl)) (entry_of ip rl)
unfolding cleanup_limiter Agrees entry_of
cleanup-Agrees now ip rl later l =
    ap (λ o. keep (in_window rl.window later) (requests_of o))
      (lookup-cleanup rl.window now ip rl.entries)
    ∙ kept (lookup ip rl.entries)
  where
    kept :
        (o : Option (List ℕ))
        → keep (in_window rl.window later) (requests_of (kept_entry rl.window now o))
          ≡ keep (in_window rl.window later) (requests_of o)
    kept none = refl
    kept (some requests) = elim (Bool-cases (has_valid_requests rl.window now requests)) [
      | inl e ↦ rw e
      | inr e ↦ rw e (sym (no_valid-keep rl.window now later requests l e))
    ]

-- A cleanup with no other call in between changes no decision about the requests that come after
-- it, in the order of the clock.
pub accepted-cleanup :
    (now : ℕ) (ip : String) (reqs : List (ℕ × String)) (rl : RateLimiter)
    → InOrder now reqs
    → accepted ip reqs (cleanup_limiter now rl) ≡ accepted ip reqs rl
accepted-cleanup now ip reqs rl o =
    accepted-reference rl.max_requests rl.window ip reqs now (entry_of ip rl)
      (cleanup_limiter now rl) o
      (record {
        same_max = unfold cleanup_limiter in refl;
        same_window = unfold cleanup_limiter in refl;
        agrees = cleanup-Agrees now ip rl;
      })
    ∙ sym (
        accepted-reference rl.max_requests rl.window ip reqs now (entry_of ip rl) rl o (record {
          same_max = refl;
          same_window = refl;
          agrees = unfold Agrees in λ later l. refl;
        }))

-- The limiter after requests.
abbrev pub after : List (ℕ × String) → RateLimiter → RateLimiter
after [] rl = rl
after ((now, ip) ∷ reqs) rl = after reqs (check now ip rl).0

after-config :
    (reqs : List (ℕ × String)) (rl : RateLimiter)
    → ((after reqs rl).max_requests ≡ rl.max_requests) × ((after reqs rl).window ≡ rl.window)
unfolding check
after-config [] rl = (refl, refl)
after-config ((now, ip) ∷ reqs) rl = after-config reqs (check now ip rl).0

idle-keep :
    (w now later : ℕ) (o : Option (List ℕ))
    → now ≤ later
    → is_idle_entry w now o ≡ true
    → keep (in_window w later) (requests_of o) ≡ []
idle-keep w now later none l e = refl
idle-keep w now later (some requests) l e = elim (Bool-cases (has_valid_requests w now requests)) [
  | inl valid ↦ cc (rw valid at e)
  | inr gone ↦ no_valid-keep w now later requests l gone
]

entry_of-delete :
    (ip other : String) (rl : RateLimiter)
    → entry_of other (delete_entry ip rl) ≡ (if str_eq ip other then [] else entry_of other rl)
unfolding entry_of delete_entry
entry_of-delete ip other rl =
    ap requests_of (lookup-erase ip other rl.entries)
    ∙ (elim (Bool-cases (str_eq ip other)) [ inl e ↦ rw e refl | inr e ↦ rw e refl ])

same-Agrees : (w t : ℕ) (xs ys : List ℕ) → xs ≡ ys → Agrees w t xs ys
unfolding Agrees
same-Agrees w t xs ys e later l = ap (keep (in_window w later)) e

idle-Agrees :
    (now : ℕ) (ip : String) (rl : RateLimiter)
    → is_idle now ip rl ≡ true
    → Agrees rl.window now (entry_of ip rl) []
unfolding Agrees entry_of is_idle
idle-Agrees now ip rl idle later l = idle-keep rl.window now later (lookup ip rl.entries) l idle

-- An entry that the cleanup has found without a request in the last two windows is deleted after any
-- requests in between. Then the later decisions about its address, in the order of the clock, are
-- those without any of the requests in between: nothing before them matters any more, and what they
-- recorded is forgotten. The decisions about every other address do not change.
pub delete_entry-forgets :
    (now : ℕ) (ip : String) (between reqs : List (ℕ × String)) (rl : RateLimiter)
    → is_idle now ip rl ≡ true
    → InOrder now reqs
    → (accepted ip reqs (delete_entry ip (after between rl)) ≡ accepted ip reqs rl)
      × ((other : String)
          → str_eq ip other ≡ false
          → accepted other reqs (delete_entry ip (after between rl))
            ≡ accepted other reqs (after between rl))
unfolding delete_entry
delete_entry-forgets now ip between reqs rl idle o =
    let late = after between rl in
    let (max, window) = after-config between rl in
    let same : str_eq ip ip ≡ true = (eq_iff ip ip).1 refl in
    let gone : entry_of ip (delete_entry ip late) ≡ [] =
      entry_of-delete ip ip late ∙ rw same refl in
    (
      accepted-reference rl.max_requests rl.window ip reqs now [] (delete_entry ip late) o (record {
        same_max = max;
        same_window = window;
        agrees = same-Agrees rl.window now _ [] gone;
      })
          ∙ sym (
              accepted-reference rl.max_requests rl.window ip reqs now [] rl o (record {
                same_max = refl;
                same_window = refl;
                agrees = idle-Agrees now ip rl idle;
              })),
      λ other differs.
          accepted-reference late.max_requests late.window other reqs now (entry_of other late)
            (delete_entry ip late) o
            (record {
              same_max = refl;
              same_window = refl;
              agrees =
                  same-Agrees late.window now _ _ (entry_of-delete ip other late ∙ rw differs refl);
            })
          ∙ sym (
              accepted-reference late.max_requests late.window other reqs now (entry_of other late)
                late o
                (record {
                  same_max = refl;
                  same_window = refl;
                  agrees = same-Agrees late.window now _ _ refl;
                })),
    )
