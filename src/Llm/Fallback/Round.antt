-- ===== src/Llm/Fallback/Round.antt =====
-- One round of the loop over the models (internal/llm/fallback.go), and that the rounds before it
-- leave the circuits of the later models alone.
use cryptofunk.Prelude.{
  ℕ, suc, ◌≤◌, ◌≡◌, ◌⊎◌, refl, sym, ◌∙◌, inl, inr, pos, true, false, List, ◌∷◌, arith, ok, err,
}
use native.Mathlib.Nat.{le_refl}
use cryptofunk.Llm.Client.{ChatResponse, CallError, Outcome}
use cryptofunk.Llm.Breaker.{CircuitBreaker, is_open}
use cryptofunk.Llm.Breaker.Circuit.{Event, asked, succeeded, failed}
use cryptofunk.Llm.Breaker.Table.{
  circuit_at, call, is_open-answer_of, answer_of, circuit_at-call_ne, config-call,
}
use cryptofunk.Llm.Fallback.{Turn, fail_over}

-- Two breakers with the same circuits from the model `i` on.
pub record SameFrom (i : ℕ) (a b : CircuitBreaker) : Type 0 where
  pub same_config : a.config ≡ b.config
  pub same_circuits : (j : ℕ) → i ≤ j → circuit_at (pos j) a ≡ circuit_at (pos j) b

pub SameFrom-is_open :
    (now i : ℕ) (a b : CircuitBreaker)
    → SameFrom i a b
    → (is_open now (pos i) b).1 ≡ (is_open now (pos i) a).1
SameFrom-is_open now i a b s =
    is_open-answer_of now (pos i) b
    ∙ (λ t. answer_of (sym s.same_config t) now (sym (s.same_circuits i (le_refl i)) t))
    ∙ sym (is_open-answer_of now (pos i) a)

pub SameFrom-call :
    (i : ℕ) (e : Event) (a b : CircuitBreaker)
    → SameFrom i a b
    → SameFrom (suc i) a (call (pos i, e) b)
SameFrom-call i e a b s = record {
  same_config = s.same_config ∙ sym (config-call (pos i) e b);
  same_circuits =
      λ j l. s.same_circuits j (omega arith) ∙ sym (circuit_at-call_ne i j e b (λ q. omega arith));
}

pub SameFrom-again :
    (i : ℕ) (e : Event) (a b : CircuitBreaker)
    → SameFrom (suc i) a b
    → SameFrom (suc i) a (call (pos i, e) b)
SameFrom-again i e a b s = record {
  same_config = s.same_config ∙ sym (config-call (pos i) e b);
  same_circuits = λ j l. s.same_circuits j l ∙ sym (circuit_at-call_ne i j e b (λ q. omega arith));
}

module _ (i : ℕ) (turn : Turn) (turns : List Turn) (last : CallError) (cb : CircuitBreaker) where
  abbrev pub asked_cb : CircuitBreaker
  asked_cb = call (pos i, asked turn.asked_at) cb

  pub fail_over-blocked :
      (is_open turn.asked_at (pos i) cb).1 ≡ true
      → fail_over i (turn ∷ turns) last cb ≡ fail_over (suc i) turns last asked_cb
  unfolding fail_over call
  fail_over-blocked b = rw (b, fail_over)

  pub fail_over-ok :
      (r : ChatResponse)
      → (is_open turn.asked_at (pos i) cb).1 ≡ false
      → turn.outcome ≡ ok r
      → fail_over i (turn ∷ turns) last cb
        ≡ (call (pos i, succeeded turn.recorded_at) asked_cb, ok r)
  unfolding fail_over call
  fail_over-ok r b o = rw (b, fail_over) (rw o)

  pub fail_over-err :
      (e : CallError)
      → (is_open turn.asked_at (pos i) cb).1 ≡ false
      → turn.outcome ≡ err e
      → fail_over i (turn ∷ turns) last cb
        ≡ fail_over (suc i) turns e (call (pos i, failed turn.recorded_at) asked_cb)
  unfolding fail_over call
  fail_over-err e b o = rw (b, fail_over) (rw o)

pub Outcome-cases :
    (o : Outcome) → ((r : ChatResponse) × (o ≡ ok r)) ⊎ ((e : CallError) × (o ≡ err e))
Outcome-cases (ok r) = inl (r, refl)
Outcome-cases (err e) = inr (e, refl)

pub SameFrom-start : (cb : CircuitBreaker) → SameFrom 0 cb cb
SameFrom-start cb = record { same_config = refl; same_circuits = λ j l. refl }
