-- ===== src/Llm/Client/Retry.antt =====
-- What the retries of internal/llm/client.go promise: which errors are retried, and when
-- `CompleteWithRetry` answers.
use cryptofunk.Prelude.{
  ℕ, zero, suc, ◌+◌, ◌≤◌, ◌<◌, ◌≡◌, ◌≢◌, ◌↔◌, ◌⊎◌, refl, sym, subst, ℕ_discrete, ◌∙◌, inl, inr, ℤ,
  pos, String, true, false, none, some, Option, arith, Bool-cases, ok, err,
}
use cryptofunk.Llm.Client.{
  ChatResponse, CallError, no_error, non_retryable, failed_after, context_done, answered, passed,
  complete, classify_http_error, is_final, Trial, gives_up, retry, complete_with_retry, Outcome,
}

-- An answer whose status is not 200 is an error, whatever its body, and the retries give up on it
-- exactly if the status is neither 429 nor from 500 to 599.
pub complete-is_final :
    (status : ℕ) (body : String) (message : Option String) (chat : Option ChatResponse)
    → status ≢ 200
    → (e : CallError) × (complete (passed (answered status body message chat)) ≡ err e)
      × ((is_final e ≡ false) ↔ ((status ≡ 429) ⊎ ((500 ≤ status) × (status < 600))))
complete-is_final status body none chat h = (
  classify_http_error status body,
  unfold complete in ground arith,
  (
    λ f. unfold classify_http_error in ground arith,
    λ f. unfold classify_http_error in ground arith,
  ),
)
complete-is_final status body (some m) chat h = (
  classify_http_error status m,
  unfold complete in ground arith,
  (
    λ f. unfold classify_http_error in ground arith,
    λ f. unfold classify_http_error in ground arith,
  ),
)

Outcome-cases : (o : Outcome) → ((r : ChatResponse) × (o ≡ ok r)) ⊎ ((e : CallError) × (o ≡ err e))
Outcome-cases (ok r) = inl (r, refl)
Outcome-cases (err e) = inr (e, refl)

module _ (trials : ℕ → Trial) where
  -- The attempt is made, and fails with an error that is worth another.
  abbrev pub FailsForNow : ℕ → Type 0
  FailsForNow k =
      (gives_up k (trials k).cancelled ≡ false)
      × ((e : CallError) × (complete (trials k).gate ≡ err e) × (is_final e ≡ false))

  -- The attempt is made, and answers.
  abbrev pub Answers : ℕ → ChatResponse → Type 0
  Answers k r = (gives_up k (trials k).cancelled ≡ false) × (complete (trials k).gate ≡ ok r)

  abbrev pub FirstAnswer : ℕ → ℕ → ChatResponse → Type 0
  FirstAnswer from left r =
      (k : ℕ) × (from ≤ k)
      × (k < from + left)
      × Answers k r
      × ((j : ℕ) → from ≤ j → j < k → FailsForNow j)

  retry-cancelled :
      (max : ℤ) (left from : ℕ) (last : CallError)
      → gives_up from (trials from).cancelled ≡ true
      → retry max trials from (suc left) last ≡ err context_done
  unfolding retry
  retry-cancelled max left from last g = rw (g, retry)

  retry-ok :
      (max : ℤ) (left from : ℕ) (last : CallError) (r : ChatResponse)
      → Answers from r
      → retry max trials from (suc left) last ≡ ok r
  unfolding retry
  retry-ok max left from last r (g, a) = rw (g, retry) (rw a)

  retry-final :
      (max : ℤ) (left from : ℕ) (last e : CallError)
      → gives_up from (trials from).cancelled ≡ false
      → complete (trials from).gate ≡ err e
      → is_final e ≡ true
      → retry max trials from (suc left) last ≡ err (non_retryable e)
  unfolding retry
  retry-final max left from last e g a f = rw (g, retry) (rw a (rw f))

  retry-again :
      (max : ℤ) (left from : ℕ) (last : CallError) (f : FailsForNow from)
      → retry max trials from (suc left) last ≡ retry max trials (suc from) left f.1.0
  unfolding retry
  retry-again max left from last (g, (e, a, f)) = rw (g, retry) (rw a (rw f))

  -- How the attempt `from` goes.
  data Fate (from : ℕ) : Type 0 where
    cancels : gives_up from (trials from).cancelled ≡ true → Fate from
    answers : (r : ChatResponse) → Answers from r → Fate from
    ends :
        (e : CallError)
        → gives_up from (trials from).cancelled ≡ false
        → complete (trials from).gate ≡ err e
        → is_final e ≡ true
        → Fate from
    fails_for_now : FailsForNow from → Fate from

  fate : (from : ℕ) → Fate from
  fate from = elim (Bool-cases (gives_up from (trials from).cancelled)) [
    | inl c ↦ cancels c
    | inr g ↦ elim (Outcome-cases (complete (trials from).gate)) [
      | inl (r, a) ↦ answers r (g, a)
      | inr (e, a) ↦ elim (Bool-cases (is_final e)) [
        | inl f ↦ ends e g a f
        | inr f ↦ fails_for_now (g, (e, a, f))
      ]
    ]
  ]

  first_later :
      (from left : ℕ) (r : ChatResponse)
      → FailsForNow from
      → FirstAnswer (suc from) left r
      → FirstAnswer from (suc left) r
  first_later from left r f (k, lo, hi, a, before) = (
    k,
    omega arith,
    omega arith,
    a,
    λ j l u. elim (ℕ_discrete j from) [ yes e ↦ rw e f | no ne ↦ before j (omega arith) u ],
  )

  retry-answers :
      (max : ℤ) (left from : ℕ) (last : CallError) (r : ChatResponse)
      → retry max trials from left last ≡ ok r
      → FirstAnswer from left r
  retry-answers max zero from last r h = unfold retry in cc h
  retry-answers max (suc left) from last r h = elim (fate from) [
    | cancels c ↦ cc (retry-cancelled max left from last c)
    | answers r' a ↦
        let same : r' ≡ r = cc (retry-ok max left from last r' a) in
        (from, omega arith, omega arith, subst (Answers from) same a, λ j l u. absurd (omega arith))
    | ends e g a f ↦ cc (retry-final max left from last e g a f)
    | fails_for_now f ↦
        first_later from left r f
          (retry-answers max left (suc from) f.1.0 r (sym (retry-again max left from last f) ∙ h))
  ]

  answers-retry :
      (max : ℤ) (left from : ℕ) (last : CallError) (r : ChatResponse)
      → FirstAnswer from left r
      → retry max trials from left last ≡ ok r
  answers-retry max zero from last r (k, lo, hi, a, before) = absurd (omega arith)
  answers-retry max (suc left) from last r (k, lo, hi, a, before) = elim (ℕ_discrete k from) [
    | yes e ↦ retry-ok max left from last r (rw (← e) a)
    | no ne ↦
        let f = before from (omega arith) (omega arith) in
        retry-again max left from last f
        ∙ answers-retry max left (suc from) f.1.0 r
            (k, omega arith, omega arith, a, λ j l u. before j (omega arith) u)
  ]

  all_fail-retry :
      (max : ℤ) (left from : ℕ) (last : CallError)
      → ((j : ℕ) → from ≤ j → j < from + left → FailsForNow j)
      → (e : CallError) × (retry max trials from left last ≡ err (failed_after max e))
  all_fail-retry max zero from last h = (last, unfold retry in refl)
  all_fail-retry max (suc left) from last h =
      let f = h from (omega arith) (omega arith) in
      let (e, p) =
        all_fail-retry max left (suc from) f.1.0 (λ j l u. h j (omega arith) (omega arith)) in
      (e, retry-again max left from last f ∙ p)

  retry-all_fail :
      (max : ℤ) (left from : ℕ) (last e : CallError)
      → retry max trials from left last ≡ err (failed_after max e)
      → (j : ℕ) → from ≤ j
      → j < from + left
      → FailsForNow j
  retry-all_fail max zero from last e h j l u = absurd (omega arith)
  retry-all_fail max (suc left) from last e h j l u = elim (fate from) [
    | cancels c ↦ cc (retry-cancelled max left from last c)
    | answers r a ↦ cc (retry-ok max left from last r a)
    | ends e' g a f ↦ cc (retry-final max left from last e' g a f)
    | fails_for_now f ↦ elim (ℕ_discrete j from) [
      | yes eq ↦ rw eq f
      | no ne ↦
          retry-all_fail max left (suc from) f.1.0 e (sym (retry-again max left from last f) ∙ h) j
            (omega arith) (omega arith)
    ]
  ]

-- `CompleteWithRetry` with at most `n` retries answers exactly if one of its `n + 1` attempts does
-- and every attempt before that fails with an error worth another, no backoff being cut off by the
-- context; and it reports that the attempts are used up exactly if all `n + 1` fail so.
pub complete_with_retry_iff :
    (n : ℕ) (trials : ℕ → Trial) (r : ChatResponse)
    → ((complete_with_retry (pos n) trials ≡ ok r) ↔ FirstAnswer trials 0 (suc n) r)
      × (((e : CallError) × (complete_with_retry (pos n) trials ≡ err (failed_after (pos n) e)))
          ↔ ((j : ℕ) → j ≤ n → FailsForNow trials j))
unfolding complete_with_retry
complete_with_retry_iff n trials r = (
  (
    retry-answers trials (pos n) (suc n) 0 no_error r,
    answers-retry trials (pos n) (suc n) 0 no_error r,
  ),
  (
    λ h j l. retry-all_fail trials (pos n) (suc n) 0 no_error h.0 h.1 j (omega arith) (omega arith),
    λ h. all_fail-retry trials (pos n) (suc n) 0 no_error (λ j l u. h j (omega arith)),
  ),
)
