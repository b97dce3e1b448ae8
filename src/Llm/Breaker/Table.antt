-- ===== src/Llm/Breaker/Table.antt =====
-- The circuits as a table by model index (internal/llm/fallback.go): the range checks, and that
-- an operation on one model touches no other.
use cryptofunk.Prelude.{
  ℕ, zero, suc, ◌+◌, ◌<◌, ◌≡◌, ◌↔◌, ◌⊎◌, ◌≢◌, ◌∙◌, sym, inl, inr, refl, ap, ℤ, pos, negsuc, Bool,
  true, false, none, some, Option, List, arith, [], ◌∷◌, get_elem?, set, Option-cases, ◌==◌,
  if◌then◌else◌,
}
use cryptofunk.Llm.Breaker.{
  circuit_open, ModelCircuit, CircuitBreaker, CircuitBreakerConfig, ask, update_model, is_open,
  record_success, record_failure, reset,
}
use cryptofunk.Llm.Breaker.Circuit.{Event, asked, succeeded, failed, cleared, step, run}

-- The circuit of a model, if the index is in range.
abbrev pub circuit_at : ℤ → CircuitBreaker → Option ModelCircuit
circuit_at (negsuc k) cb = none
circuit_at (pos i) cb = get_elem? cb.models i

ask-blocks :
    (now : ℕ) (cb : CircuitBreaker) (c : ModelCircuit)
    → ((ask cb.config now c).1 ≡ true)
      ↔ ((c.state ≡ circuit_open) × (now < c.opened_at + cb.config.timeout))
unfolding ask
ask-blocks now cb c = (λ h. ground arith, λ h. ground arith)

is_open-ask :
    (now i : ℕ) (cb : CircuitBreaker) (c : ModelCircuit)
    → get_elem? cb.models i ≡ some c
    → (is_open now (pos i) cb).1 ≡ (ask cb.config now c).1
unfolding is_open
is_open-ask now i cb c e = rw (e, is_open)

is_open-none :
    (now i : ℕ) (cb : CircuitBreaker)
    → get_elem? cb.models i ≡ none
    → is_open now (pos i) cb ≡ (cb, true)
unfolding is_open
is_open-none now i cb e = rw (e, is_open)

-- `IsOpen` says yes exactly if the index is out of range, or the circuit is open and its timeout
-- has not passed.
pub is_open_iff :
    (now : ℕ) (i : ℤ) (cb : CircuitBreaker)
    → ((is_open now i cb).1 ≡ true) ↔ (
        (circuit_at i cb ≡ none)
        ⊎ ((c : ModelCircuit) × (circuit_at i cb ≡ some c)
            × (c.state ≡ circuit_open)
            × (now < c.opened_at + cb.config.timeout)))
is_open_iff now (negsuc k) cb = (λ h. inl refl, λ h. unfold is_open in refl)
is_open_iff now (pos i) cb = elim (Option-cases (get_elem? cb.models i)) [
  | inl e ↦ (λ h. inl e, λ h. ap (λ r. r.1) (is_open-none now i cb e))
  | inr (c, e) ↦ (
    λ h.
        let (s, l) = (ask-blocks now cb c).0 (sym (is_open-ask now i cb c e) ∙ h) in
        inr (c, e, s, l),
    λ h. is_open-ask now i cb c e ∙ (ask-blocks now cb c).1 (blocking i cb c now e h),
  )
]
  where
    blocking :
        (i : ℕ) (cb : CircuitBreaker) (c : ModelCircuit) (now : ℕ)
        → get_elem? cb.models i ≡ some c
        → ((get_elem? cb.models i ≡ none)
            ⊎ ((d : ModelCircuit) × (get_elem? cb.models i ≡ some d)
                × (d.state ≡ circuit_open)
                × (now < d.opened_at + cb.config.timeout)))
        → (c.state ≡ circuit_open) × (now < c.opened_at + cb.config.timeout)
    blocking i cb c now e (inl n) = absurd (cc)
    blocking i cb c now e (inr (d, f, s, l)) = let same : c ≡ d = cc in rw same (s, l)

same_index : ℤ → ℤ → Bool
same_index (pos i) (pos j) = i == j
same_index (negsuc i) (negsuc j) = i == j
same_index i j = false

abbrev pub map_circuit : (ModelCircuit → ModelCircuit) → Option ModelCircuit → Option ModelCircuit
map_circuit f none = none
map_circuit f (some c) = some (f c)

get_elem?-set_map :
    (f : ModelCircuit → ModelCircuit) (cs : List ModelCircuit) (i j : ℕ) (c : ModelCircuit)
    → get_elem? cs i ≡ some c
    → get_elem? (set cs i (f c)) j
      ≡ (if i == j then map_circuit f (get_elem? cs j) else get_elem? cs j)
get_elem?-set_map f [] i j c e = cc
get_elem?-set_map f (d ∷ cs) zero zero c e = cc
get_elem?-set_map f (d ∷ cs) zero (suc j) c e = ground arith
get_elem?-set_map f (d ∷ cs) (suc i) zero c e = ground arith
get_elem?-set_map f (d ∷ cs) (suc i) (suc j) c e = ground (arith, get_elem?-set_map f cs i j c e)

get_elem?-absent :
    (f : ModelCircuit → ModelCircuit) (cs : List ModelCircuit) (i j : ℕ)
    → get_elem? cs i ≡ none
    → get_elem? cs j ≡ (if i == j then map_circuit f (get_elem? cs j) else get_elem? cs j)
get_elem?-absent f cs i j e = ground arith

circuit_at-update_model :
    (f : ModelCircuit → ModelCircuit) (i j : ℤ) (cb : CircuitBreaker)
    → circuit_at j (update_model f i cb)
      ≡ (if same_index i j then map_circuit f (circuit_at j cb) else circuit_at j cb)
unfolding update_model same_index
circuit_at-update_model f (negsuc i) (negsuc j) cb = ground arith
circuit_at-update_model f (negsuc i) (pos j) cb = refl
circuit_at-update_model f (pos i) (negsuc j) cb = refl
circuit_at-update_model f (pos i) (pos j) cb = elim (Option-cases (get_elem? cb.models i)) [
  | inl e ↦ rw (e, update_model) (get_elem?-absent f cb.models i j e)
  | inr (c, e) ↦ rw (e, update_model) (get_elem?-set_map f cb.models i j c e)
]

config-update_model :
    (f : ModelCircuit → ModelCircuit) (i : ℤ) (cb : CircuitBreaker)
    → (update_model f i cb).config ≡ cb.config
unfolding update_model
config-update_model f i cb = ground arith

is_open-update_model :
    (now : ℕ) (i : ℤ) (cb : CircuitBreaker)
    → (is_open now i cb).0 ≡ update_model (λ c. (ask cb.config now c).0) i cb
unfolding is_open update_model
is_open-update_model now (negsuc k) cb = refl
is_open-update_model now (pos i) cb = ground arith

-- One call of the breaker, as an event of the model that it is about.
unfoldable pub call : ℤ × Event → CircuitBreaker → CircuitBreaker
call (i, asked now) cb = (is_open now i cb).0
call (i, succeeded now) cb = record_success now i cb
call (i, failed now) cb = record_failure now i cb
call (i, cleared) cb = reset i cb

unfoldable pub call_all : List (ℤ × Event) → CircuitBreaker → CircuitBreaker
call_all [] cb = cb
call_all (e ∷ es) cb = call_all es (call e cb)

call-update_model :
    (i : ℤ) (e : Event) (cb : CircuitBreaker)
    → call (i, e) cb ≡ update_model (step cb.config e) i cb
unfolding call record_success record_failure reset step
call-update_model i (asked now) cb = is_open-update_model now i cb
call-update_model i (succeeded now) cb = refl
call-update_model i (failed now) cb = refl
call-update_model i cleared cb = refl

-- The events of one model, in order.
pub events_of : ℤ → List (ℤ × Event) → List Event
unfolding same_index
events_of j [] = []
events_of j ((i, e) ∷ es) = let rest = events_of j es in if same_index i j then e ∷ rest else rest

map_run :
    (config : CircuitBreakerConfig) (b : Bool) (e : Event) (es : List Event)
    (o : Option ModelCircuit)
    → map_circuit (run config es) (if b then map_circuit (step config e) o else o)
      ≡ map_circuit (run config (if b then e ∷ es else es)) o
unfolding run
map_run config true e es none = refl
map_run config true e es (some c) = refl
map_run config false e es o = refl

map_run_nil :
    (config : CircuitBreakerConfig) (o : Option ModelCircuit) → o ≡ map_circuit (run config []) o
unfolding run
map_run_nil config none = refl
map_run_nil config (some c) = refl

-- The table of circuits is a family of independent circuits: after any calls, on any indices, the
-- circuit of each model is what its own calls alone make of it, in their order, and an index out
-- of range has no circuit before or after.
pub circuit_at-call_all :
    (es : List (ℤ × Event)) (j : ℤ) (cb : CircuitBreaker)
    → circuit_at j (call_all es cb) ≡ map_circuit (run cb.config (events_of j es)) (circuit_at j cb)
unfolding call_all events_of update_model
circuit_at-call_all [] j cb = map_run_nil cb.config (circuit_at j cb)
circuit_at-call_all ((i, e) ∷ es) j cb =
    circuit_at-call_all es j (call (i, e) cb)
    ∙ rw (call-update_model i e cb, config-update_model, circuit_at-update_model)
        (map_run cb.config (same_index i j) e (events_of j es) (circuit_at j cb))

-- What `IsOpen` answers, from the circuit alone.
abbrev pub answer_of : CircuitBreakerConfig → ℕ → Option ModelCircuit → Bool
answer_of config now none = true
answer_of config now (some c) = (ask config now c).1

pub is_open-answer_of :
    (now : ℕ) (i : ℤ) (cb : CircuitBreaker)
    → (is_open now i cb).1 ≡ answer_of cb.config now (circuit_at i cb)
unfolding is_open
is_open-answer_of now (negsuc k) cb = refl
is_open-answer_of now (pos i) cb = ground arith

pub circuit_at-call_ne :
    (i j : ℕ) (e : Event) (cb : CircuitBreaker)
    → i ≢ j
    → circuit_at (pos j) (call (pos i, e) cb) ≡ circuit_at (pos j) cb
unfolding same_index
circuit_at-call_ne i j e cb h =
    ap (circuit_at (pos j)) (call-update_model (pos i) e cb)
    ∙ circuit_at-update_model (step cb.config e) (pos i) (pos j) cb
    ∙ ground arith

pub config-call : (i : ℤ) (e : Event) (cb : CircuitBreaker) → (call (i, e) cb).config ≡ cb.config
config-call i e cb =
    ap (λ b. b.config) (call-update_model i e cb) ∙ config-update_model (step cb.config e) i cb
