-- ===== src/Llm/Fallback/Effect.antt =====
-- What the loop over the models does to the circuits (internal/llm/fallback.go).
use cryptofunk.Prelude.{
  ℕ, suc, ◌≡◌, refl, ap, ◌∙◌, inl, inr, ℤ, pos, true, false, List, [], ◌∷◌, Bool-cases, ok, err,
}
use cryptofunk.Llm.Client.{
  CallError, Outcome, no_error, all_models_failed, all_models_failed_after_retries,
}
use cryptofunk.Llm.Breaker.{CircuitBreaker, is_open}
use cryptofunk.Llm.Breaker.Circuit.{Event, run, asked, succeeded, failed}
use cryptofunk.Llm.Breaker.Table.{
  circuit_at, call, call_all, map_circuit, events_of, circuit_at-call_all,
}
use cryptofunk.Llm.Fallback.{
  Turn, fail_over, Call, turns_of, complete_any, complete_any_with_retry, Retries, retry_turns,
  wrap,
}
use cryptofunk.Llm.Fallback.Round.{
  SameFrom, SameFrom-is_open, SameFrom-call, SameFrom-again, SameFrom-start, asked_cb,
  fail_over-blocked, fail_over-ok, fail_over-err, Outcome-cases,
}

-- The calls on the breaker that the loop makes from the model `i` on.
pub calls_from : CircuitBreaker → ℕ → List Turn → List (ℤ × Event)
calls_from cb i [] = []
calls_from cb i (turn ∷ turns) =
    let rest = calls_from cb (suc i) turns in
    (pos i, asked turn.asked_at) ∷ (elim (is_open turn.asked_at (pos i) cb).1 [
      | true ↦ rest
      | false ↦ elim turn.outcome [
        | ok r ↦ (pos i, succeeded turn.recorded_at) ∷ []
        | err e ↦ (pos i, failed turn.recorded_at) ∷ rest
      ]
    ])

fail_over-calls :
    (cb0 : CircuitBreaker) (i : ℕ) (turns : List Turn) (last : CallError) (cb : CircuitBreaker)
    → SameFrom i cb0 cb
    → (fail_over i turns last cb).0 ≡ call_all (calls_from cb0 i turns) cb
unfolding calls_from call_all
fail_over-calls cb0 i [] last cb s = unfold fail_over in refl
fail_over-calls cb0 i (turn ∷ turns) last cb s =
    elim (Bool-cases (is_open turn.asked_at (pos i) cb0).1) [
      | inl b ↦
          let b' = SameFrom-is_open turn.asked_at i cb0 cb s ∙ b in
          ap (λ p. p.0) (fail_over-blocked i turn turns last cb b')
          ∙ fail_over-calls cb0 (suc i) turns last (asked_cb i turn turns last cb)
              (SameFrom-call i (asked turn.asked_at) cb0 cb s)
          ∙ rw b
      | inr b ↦
          let b' = SameFrom-is_open turn.asked_at i cb0 cb s ∙ b in
          elim (Outcome-cases turn.outcome) [
            | inl (r, o) ↦ ap (λ p. p.0) (fail_over-ok i turn turns last cb r b' o) ∙ rw b (rw o)
            | inr (e, o) ↦
                ap (λ p. p.0) (fail_over-err i turn turns last cb e b' o)
                ∙ fail_over-calls cb0 (suc i) turns e
                    (call (pos i, failed turn.recorded_at) (asked_cb i turn turns last cb))
                    (SameFrom-again i (failed turn.recorded_at) cb0
                      (call (pos i, asked turn.asked_at) cb)
                      (SameFrom-call i (asked turn.asked_at) cb0 cb s))
                ∙ rw b (rw o)
          ]
    ]

wrap-fst : (f : CallError → CallError) (p : CircuitBreaker × Outcome) → (wrap f p).0 ≡ p.0
wrap-fst f (cb, ok r) = refl
wrap-fst f (cb, err e) = refl

-- After `Complete` or `CompleteWithRetry` of the fallback client, the circuit of each model is
-- what its own part of one list of calls makes of it. The list asks the models in order, each
-- once; records a failure of each that was let through and failed; and ends with the success of
-- the one that answers, so that the models after it are not touched. Whether a model is let
-- through is what its circuit said before the call.
pub complete_any-circuits :
    (calls : List Call) (max_retries : ℤ) (retries : List Retries) (cb : CircuitBreaker) (j : ℤ)
    → (circuit_at j (complete_any calls cb).0
        ≡ map_circuit
            (run cb.config (events_of j (calls_from cb 0 (turns_of calls))))
            (circuit_at j cb))
      × (circuit_at j (complete_any_with_retry max_retries retries cb).0
          ≡ map_circuit
              (run cb.config (events_of j (calls_from cb 0 (retry_turns max_retries retries))))
              (circuit_at j cb))
unfolding complete_any complete_any_with_retry
complete_any-circuits calls max_retries retries cb j = (
  effect all_models_failed (turns_of calls),
  effect all_models_failed_after_retries (retry_turns max_retries retries),
)
  where
    effect :
        (f : CallError → CallError) (turns : List Turn)
        → circuit_at j (wrap f (fail_over 0 turns no_error cb)).0
          ≡ map_circuit (run cb.config (events_of j (calls_from cb 0 turns))) (circuit_at j cb)
    effect f turns =
        ap (circuit_at j) (
          wrap-fst f (fail_over 0 turns no_error cb)
          ∙ fail_over-calls cb 0 turns no_error cb (SameFrom-start cb))
        ∙ circuit_at-call_all (calls_from cb 0 turns) j cb
