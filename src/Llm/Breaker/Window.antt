-- ===== src/Llm/Breaker/Window.antt =====
-- The sliding window of failures (internal/llm/fallback.go, RecordFailure): dropping the old
-- failures at each new one keeps what a filter of the whole history would keep.
use cryptofunk.Prelude.{ℕ, ◌≤◌, ◌≡◌, refl, sym, ◌∙◌, ap, List, [], ◌∷◌, ◌++◌, arith, keep-append}
use cryptofunk.Llm.Breaker.{
  ModelCircuit, CircuitBreakerConfig, new_circuit, ask, succeed, fail, clear, prune,
}
use cryptofunk.Llm.Breaker.Circuit.{Event, asked, succeeded, failed, cleared, step, run, InOrder}

-- The times of the failures since the last reset, after those of `h`.
pub history : List ℕ → List Event → List ℕ
history h [] = h
history h (asked now ∷ es) = history h es
history h (succeeded now ∷ es) = history h es
history h (failed now ∷ es) = history (h ++ now ∷ []) es
history h (cleared ∷ es) = history [] es

prune-prune : (w s t : ℕ) (xs : List ℕ) → s ≤ t → prune w t (prune w s xs) ≡ prune w t xs
unfolding prune
prune-prune w s t [] l = refl
prune-prune w s t (x ∷ xs) l = ground (arith, prune-prune w s t xs l)

prune-append : (w t : ℕ) (xs ys : List ℕ) → prune w t (xs ++ ys) ≡ prune w t xs ++ prune w t ys
unfolding prune
prune-append w t xs ys = keep-append _ xs ys

prune-snoc :
    (w s t : ℕ) (h : List ℕ) → s ≤ t → prune w t (prune w s h ++ t ∷ []) ≡ prune w t (h ++ t ∷ [])
prune-snoc w s t h l =
    prune-append w t (prune w s h) (t ∷ [])
    ∙ ap (λ r. r ++ prune w t (t ∷ [])) (prune-prune w s t h l)
    ∙ sym (prune-append w t h (t ∷ []))

module _ (config : CircuitBreakerConfig) where
  open config use {time_window as w}

  IsPruned : List ℕ → ModelCircuit → Type 0
  IsPruned h c = c.failures ≡ prune w c.last_failure h

  ask_same :
      (t : ℕ) (c : ModelCircuit)
      → ((step config (asked t) c).failures ≡ c.failures)
        × ((step config (asked t) c).last_failure ≡ c.last_failure)
  unfolding step ask
  ask_same t c = ground arith

  succeed_same :
      (t : ℕ) (c : ModelCircuit)
      → ((step config (succeeded t) c).failures ≡ c.failures)
        × ((step config (succeeded t) c).last_failure ≡ c.last_failure)
  unfolding step succeed
  succeed_same t c = ground arith

  fail_pruned :
      (t : ℕ) (c : ModelCircuit)
      → ((step config (failed t) c).failures ≡ prune w t (c.failures ++ t ∷ []))
        × ((step config (failed t) c).last_failure ≡ t)
  unfolding step fail
  fail_pruned t c = ground arith

  run-IsPruned :
      (es : List Event) (t : ℕ) (h : List ℕ) (c : ModelCircuit)
      → InOrder t es
      → c.last_failure ≤ t
      → c.failures ≡ prune w c.last_failure h
      → (run config es c).failures ≡ prune w (run config es c).last_failure (history h es)
  unfolding run history
  run-IsPruned [] t h c o l p = p
  run-IsPruned (asked now ∷ es) t h c o l p =
      let (f, m) = ask_same now c in
      run-IsPruned es now h (step config (asked now) c) o.1 (omega arith)
        (f ∙ p ∙ ap (λ (x : ℕ). prune w x h) (sym m))
  run-IsPruned (succeeded now ∷ es) t h c o l p =
      let (f, m) = succeed_same now c in
      run-IsPruned es now h (step config (succeeded now) c) o.1 (omega arith)
        (f ∙ p ∙ ap (λ (x : ℕ). prune w x h) (sym m))
  run-IsPruned (failed now ∷ es) t h c o l p =
      let (f, m) = fail_pruned now c in
      run-IsPruned es now (h ++ now ∷ []) (step config (failed now) c) o.1 (omega arith) (
        f
        ∙ ap (λ (x : List ℕ). prune w now (x ++ now ∷ [])) p
        ∙ prune-snoc w c.last_failure now h (omega arith)
        ∙ ap (λ (x : ℕ). prune w x (h ++ now ∷ [])) (sym m))
  run-IsPruned (cleared ∷ es) t h c o l p =
      run-IsPruned es t [] (step config cleared c) o (unfold step clear in l)
        (unfold step clear prune in refl)

-- The failures that a new circuit holds after any events in the order of the clock are exactly
-- the failures since the last reset that are younger than the window at the last failure.
pub run-failures :
    (config : CircuitBreakerConfig) (es : List Event)
    → InOrder 0 es
    → (run config es new_circuit).failures
      ≡ prune config.time_window (run config es new_circuit).last_failure (history [] es)
run-failures config es o =
    run-IsPruned config es 0 [] new_circuit o (unfold new_circuit in omega arith)
      (unfold new_circuit prune in refl)
