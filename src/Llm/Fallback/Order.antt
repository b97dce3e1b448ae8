-- ===== src/Llm/Fallback/Order.antt =====
-- Which model answers (internal/llm/fallback.go): the circuits are asked as the loop goes, but
-- each answer depends only on the circuits as they were before it.
use cryptofunk.Prelude.{
  ℕ, suc, ◌≡◌, ◌↔◌, sym, ap, ◌∙◌, inl, inr, pos, true, false, List, [], ◌∷◌, Bool-cases, ok, err,
}
use cryptofunk.Llm.Client.{ChatResponse, CallError, Outcome, no_error, all_models_failed}
use cryptofunk.Llm.Breaker.{CircuitBreaker, is_open}
use cryptofunk.Llm.Breaker.Circuit.{asked, failed}
use cryptofunk.Llm.Breaker.Table.{call}
use cryptofunk.Llm.Fallback.{Turn, fail_over, Call, turns_of, complete_any, wrap}
use cryptofunk.Llm.Fallback.Round.{
  SameFrom, SameFrom-is_open, SameFrom-call, SameFrom-again, SameFrom-start, asked_cb,
  fail_over-blocked, fail_over-ok, fail_over-err, Outcome-cases,
}

-- The first model, from `i` on, that its circuit lets through in `cb` and whose client answers.
pub data Serves (cb : CircuitBreaker) : ℕ → List Turn → ChatResponse → Type 0 where
  serves_now :
      {i : ℕ} {turn : Turn} {turns : List Turn} {r : ChatResponse}
      → (is_open turn.asked_at (pos i) cb).1 ≡ false
      → turn.outcome ≡ ok r
      → Serves cb i (turn ∷ turns) r
  blocked_here :
      {i : ℕ} {turn : Turn} {turns : List Turn} {r : ChatResponse}
      → (is_open turn.asked_at (pos i) cb).1 ≡ true
      → Serves cb (suc i) turns r
      → Serves cb i (turn ∷ turns) r
  fails_here :
      {i : ℕ} {turn : Turn} {turns : List Turn} {r : ChatResponse} {e : CallError}
      → (is_open turn.asked_at (pos i) cb).1 ≡ false
      → turn.outcome ≡ err e
      → Serves cb (suc i) turns r
      → Serves cb i (turn ∷ turns) r

fail_over-Serves :
    (cb0 : CircuitBreaker) (i : ℕ) (turns : List Turn) (last : CallError) (cb : CircuitBreaker)
    (r : ChatResponse)
    → SameFrom i cb0 cb
    → (fail_over i turns last cb).1 ≡ ok r
    → Serves cb0 i turns r
fail_over-Serves cb0 i [] last cb r s h = unfold fail_over in cc h
fail_over-Serves cb0 i (turn ∷ turns) last cb r s h =
    elim (Bool-cases (is_open turn.asked_at (pos i) cb0).1) [
      | inl b ↦
          let b' = SameFrom-is_open turn.asked_at i cb0 cb s ∙ b in
          blocked_here b (
            fail_over-Serves cb0 (suc i) turns last (asked_cb i turn turns last cb) r
              (SameFrom-call i (asked turn.asked_at) cb0 cb s)
              (sym (ap (λ p. p.1) (fail_over-blocked i turn turns last cb b')) ∙ h))
      | inr b ↦
          let b' = SameFrom-is_open turn.asked_at i cb0 cb s ∙ b in
          elim (Outcome-cases turn.outcome) [
            | inl (r', o) ↦
                let same : ok r' ≡ ok r =
                  sym (ap (λ p. p.1) (fail_over-ok i turn turns last cb r' b' o)) ∙ h in
                serves_now b (o ∙ same)
            | inr (e, o) ↦ fails_here b o (
                fail_over-Serves cb0 (suc i) turns e
                  (call (pos i, failed turn.recorded_at) (asked_cb i turn turns last cb)) r
                  (SameFrom-again i (failed turn.recorded_at) cb0
                    (call (pos i, asked turn.asked_at) cb)
                    (SameFrom-call i (asked turn.asked_at) cb0 cb s))
                  (sym (ap (λ p. p.1) (fail_over-err i turn turns last cb e b' o)) ∙ h))
          ]
    ]

Serves-fail_over :
    (cb0 : CircuitBreaker) (i : ℕ) (turns : List Turn) (last : CallError) (cb : CircuitBreaker)
    (r : ChatResponse)
    → SameFrom i cb0 cb
    → Serves cb0 i turns r
    → (fail_over i turns last cb).1 ≡ ok r
Serves-fail_over cb0 i [] last cb r s v = elim v [ ]
Serves-fail_over cb0 i (turn ∷ turns) last cb r s (serves_now b o) =
    ap (λ p. p.1)
      (fail_over-ok i turn turns last cb r (SameFrom-is_open turn.asked_at i cb0 cb s ∙ b) o)
Serves-fail_over cb0 i (turn ∷ turns) last cb r s (blocked_here b v) =
    ap (λ p. p.1)
      (fail_over-blocked i turn turns last cb (SameFrom-is_open turn.asked_at i cb0 cb s ∙ b))
    ∙ Serves-fail_over cb0 (suc i) turns last (asked_cb i turn turns last cb) r
        (SameFrom-call i (asked turn.asked_at) cb0 cb s) v
Serves-fail_over cb0 i (turn ∷ turns) last cb r s (fails_here {e = e} b o v) =
    ap (λ p. p.1)
      (fail_over-err i turn turns last cb e (SameFrom-is_open turn.asked_at i cb0 cb s ∙ b) o)
    ∙ Serves-fail_over cb0 (suc i) turns e
        (call (pos i, failed turn.recorded_at) (asked_cb i turn turns last cb)) r
        (SameFrom-again i (failed turn.recorded_at) cb0 (call (pos i, asked turn.asked_at) cb)
          (SameFrom-call i (asked turn.asked_at) cb0 cb s))
        v

wrap-ok_iff :
    (f : CallError → CallError) (p : CircuitBreaker × Outcome) (r : ChatResponse)
    → ((wrap f p).1 ≡ ok r) ↔ (p.1 ≡ ok r)
wrap-ok_iff f (cb, ok r') r = (λ h. h, λ h. h)
wrap-ok_iff f (cb, err e) r = (λ h. cc, λ h. cc)

-- `Complete` of the fallback client answers with `r` exactly if the first model, in the order of
-- the configuration, whose circuit lets the request through as the breaker stood before the call
-- and whose client answers, answers `r`; each model before it is blocked or fails.
pub complete_any-Serves :
    (calls : List Call) (cb : CircuitBreaker) (r : ChatResponse)
    → ((complete_any calls cb).1 ≡ ok r) ↔ Serves cb 0 (turns_of calls) r
unfolding complete_any
complete_any-Serves calls cb r =
    let w = wrap-ok_iff all_models_failed (fail_over 0 (turns_of calls) no_error cb) r in
    (
      λ h. fail_over-Serves cb 0 (turns_of calls) no_error cb r (SameFrom-start cb) (w.0 h),
      λ v. w.1 (Serves-fail_over cb 0 (turns_of calls) no_error cb r (SameFrom-start cb) v),
    )
