-- ===== src/Api/RateLimit/Limit.antt =====
-- The bound that a rate limit is for (cmd/api/middleware.go): no window of time holds more
-- accepted requests of one address than the limit.
use cryptofunk.Prelude.{
  ℕ, ◌≤◌, ◌<◌, ◌≡◌, ap, subst, ◌∙◌, inl, inr, String, Bool, ◌&&◌, List, [], ◌∷◌, ◌++◌, ltb, leb,
  arith, Bool-cases, length, keep, keep-append, length-append, All, str_eq, ltb→lt, leb→le,
}
use mathlib.Core.List.{append-nil, append_assoc}
use cryptofunk.Api.RateLimit.{new_rate_limiter, in_window}
use cryptofunk.Api.RateLimit.Reference.{
  reference, times_of, accepted, InOrder, accepted-is_reference,
}

-- Whether a time lies in the window that ends at `t`: after `t - window`, and not after `t`.
abbrev pub within : ℕ → ℕ → ℕ → Bool
within window t x = leb x t && in_window window t x

abbrev pub IsLimited : ℕ → ℕ → List ℕ → Type 0
IsLimited max window log = (t : ℕ) → length (keep (within window t) log) ≤ max

abbrev NotAfter : ℕ → List ℕ → Type 0
NotAfter t = All (λ x. x ≤ t)

NotAfter-later : (t u : ℕ) (log : List ℕ) → t ≤ u → NotAfter t log → NotAfter u log
NotAfter-later t u [] l h = tt
NotAfter-later t u (x ∷ log) l h = (omega arith, NotAfter-later t u log l h.1)

NotAfter-append : (t : ℕ) (log : List ℕ) → NotAfter t log → NotAfter t (log ++ t ∷ [])
NotAfter-append t [] h = (omega arith, tt)
NotAfter-append t (x ∷ log) h = (h.0, NotAfter-append t log h.1)

-- Of requests that are all before `now`, a later window holds no more than the one at `now`.
within-le :
    (w t now : ℕ) (log : List ℕ)
    → now ≤ t
    → NotAfter now log
    → length (keep (within w t) log) ≤ length (keep (in_window w now) log)
within-le w t now [] l h = omega arith
within-le w t now (x ∷ log) l h = ground (arith, within-le w t now log l h.1)

module _ (max w : ℕ) where
  IsLimited-append :
      (now : ℕ) (log : List ℕ)
      → IsLimited max w log
      → NotAfter now log
      → length (keep (in_window w now) log) < max
      → IsLimited max w (log ++ now ∷ [])
  IsLimited-append now log h before room t = elim (Bool-cases (leb now t)) [
    | inl l ↦
        let few = within-le w t now log (leb→le now t l) before in
        ground (
          arith,
          few,
          ap length (keep-append (within w t) log (now ∷ [])),
          length-append (keep (within w t) log) (keep (within w t) (now ∷ [])),
        )
    | inr g ↦
        let gone : keep (within w t) (now ∷ []) ≡ [] = rw g in
        let same =
          keep-append (within w t) log (now ∷ [])
          ∙ ap (λ r. keep (within w t) log ++ r) gone
          ∙ append-nil (keep (within w t) log) in
        rw same (h t)
  ]

  reference-IsLimited :
      (ip : String) (reqs : List (ℕ × String)) (t : ℕ) (log : List ℕ)
      → InOrder t reqs
      → NotAfter t log
      → IsLimited max w log
      → IsLimited max w (log ++ reference max w log (times_of ip reqs))
  unfolding reference times_of
  reference-IsLimited ip [] t log o b h = rw (append-nil log) h
  reference-IsLimited ip ((now, who) ∷ rest) t log o b h =
      let b' = NotAfter-later t now log o.0 b in
      elim (Bool-cases (str_eq who ip)) [
        | inr other ↦ rw other (reference-IsLimited ip rest now log o.1 b' h)
        | inl mine ↦ rw mine (elim (Bool-cases (ltb (length (keep (in_window w now) log)) max)) [
          | inr full ↦ rw (full, reference) (reference-IsLimited ip rest now log o.1 b' h)
          | inl room ↦
              rw (room, reference)
                (subst (IsLimited max w) (append_assoc log (now ∷ []) _) (
                  reference-IsLimited ip rest now (log ++ now ∷ []) o.1 (NotAfter-append now log b')
                    (IsLimited-append now log h b' (ltb→lt _ _ room))))
        ])
      ]

-- Whatever requests come, in the order of the clock, from any addresses: in every window of time,
-- open at its beginning, a new limiter accepts at most `max` requests of one address.
pub accepted-IsLimited :
    (max w : ℕ) (ip : String) (reqs : List (ℕ × String))
    → InOrder 0 reqs
    → IsLimited max w (accepted ip reqs (new_rate_limiter max w))
accepted-IsLimited max w ip reqs o =
    rw (accepted-is_reference max w ip reqs o)
      (reference-IsLimited max w ip reqs 0 [] o tt (λ t. omega arith))
