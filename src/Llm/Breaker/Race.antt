-- ===== src/Llm/Breaker/Race.antt =====
-- `IsOpen` gives up the read lock before it takes the write lock (internal/llm/fallback.go). Here
-- its two halves are steps of their own, so that other calls can come between them.
use cryptofunk.Prelude.{
  ◌<◌, sym, subst, leb, false, ℕ, zero, suc, ◌+◌, ◌≤◌, ◌≡◌, refl, ◌∙◌, ap, List, [], ◌∷◌, arith,
  length, replicate,
}
use cryptofunk.Llm.Breaker.{
  circuit_closed, circuit_open, ModelCircuit, CircuitBreakerConfig, new_circuit, recover, blocked,
  probe, mark_half_open, ask, succeed, fail,
}
use cryptofunk.Llm.Breaker.Circuit.{step, run, map_failed, map_succeeded, run-failed, run-succeeded}

-- A circuit, and the number of callers that are between the two locks of `IsOpen`.
pub record Shared : Type 0 where
  pub circuit : ModelCircuit
  pub waiting : ℕ

-- The calls that change something. `read` is the first half of an `IsOpen` that found the timeout
-- passed; `write` is the second half, which writes whatever the state has become.
pub data Step (config : CircuitBreakerConfig) (s u : Shared) : Type 0 where
  read :
      (now : ℕ)
      → probe config now s.circuit ≡ recover
      → u ≡ record s { waiting = suc s.waiting }
      → Step config s u
  write :
      (w : ℕ)
      → s.waiting ≡ suc w
      → u ≡ record { circuit = mark_half_open s.circuit; waiting = w }
      → Step config s u
  succeeds : (now : ℕ) → u ≡ record s { circuit = succeed config now s.circuit } → Step config s u
  fails : (now : ℕ) → u ≡ record s { circuit = fail config now s.circuit } → Step config s u

pub data Reach (config : CircuitBreakerConfig) (s : Shared) : Shared → Type 0 where
  here : Reach config s s
  next : {t u : Shared} → Reach config s t → Step config t u → Reach config s u

abbrev pub start : Shared
start = record { circuit = new_circuit; waiting = 0 }

module _ (config : CircuitBreakerConfig) (s : Shared) where
  Reach-failed :
      (ts : List ℕ) (u : Shared)
      → Reach config s u
      → Reach config s (record u { circuit = run config (map_failed ts) u.circuit })
  unfolding run step
  Reach-failed [] u r = r
  Reach-failed (t ∷ ts) u r =
      Reach-failed ts (record u { circuit = fail config t u.circuit }) (next r (fails t refl))

  Reach-succeeded :
      (ts : List ℕ) (u : Shared)
      → Reach config s u
      → Reach config s (record u { circuit = run config (map_succeeded ts) u.circuit })
  unfolding run step
  Reach-succeeded [] u r = r
  Reach-succeeded (t ∷ ts) u r =
      Reach-succeeded ts (record u { circuit = succeed config t u.circuit })
        (next r (succeeds t refl))

run-succeeded_fails :
    (config : CircuitBreakerConfig) (t : ℕ) (ts : List ℕ) (c : ModelCircuit)
    → (run config (map_succeeded (t ∷ ts)) c).consecutive_fails ≡ 0
unfolding run step
run-succeeded_fails config t [] c = unfold succeed in ground arith
run-succeeded_fails config t (u ∷ us) c = run-succeeded_fails config u us (succeed config t c)

length-replicate : (n a : ℕ) → length (replicate n a) ≡ n
length-replicate zero a = refl
length-replicate (suc n) a = ap suc (length-replicate n a)

module _ (config : CircuitBreakerConfig) where
  open config use {failure_threshold, success_threshold, timeout}

  -- Opened by a run of failures at time 0, then closed by a run of successes, while one more
  -- caller has passed the read lock.
  opened : ModelCircuit
  opened = run config (map_failed (0 ∷ replicate failure_threshold 0)) new_circuit

  retry_time : ℕ
  unfolding opened
  retry_time = opened.opened_at + timeout

  closed_again : ModelCircuit
  unfolding retry_time
  closed_again =
      run config (map_succeeded (retry_time ∷ replicate success_threshold retry_time))
        (mark_half_open opened)

  opened-state : opened.state ≡ circuit_open
  unfolding opened new_circuit
  opened-state =
      run-failed config 0 (replicate failure_threshold 0) new_circuit refl
      ∙ rw (length-replicate failure_threshold 0) (ground arith)

  closed_again-state : closed_again.state ≡ circuit_closed
  unfolding closed_again mark_half_open
  closed_again-state =
      run-succeeded config retry_time (replicate success_threshold retry_time)
        (mark_half_open opened) refl
      ∙ rw (length-replicate success_threshold retry_time) (ground arith)

  closed_again-fails : closed_again.consecutive_fails ≡ 0
  unfolding closed_again
  closed_again-fails =
      run-succeeded_fails config retry_time (replicate success_threshold retry_time)
        (mark_half_open opened)

  opened-probe : probe config retry_time opened ≡ recover
  unfolding probe retry_time
  opened-probe = ground (arith, opened-state)

  Reach-closed_again : Reach config start (record { circuit = closed_again; waiting = 1 })
  unfolding closed_again opened
  Reach-closed_again =
      let failed_once = Reach-failed config start (0 ∷ replicate failure_threshold 0) start here in
      let first = next failed_once (read retry_time opened-probe refl) in
      let second = next first (read retry_time opened-probe refl) in
      let half_open = next second (write 1 refl refl) in
      Reach-succeeded config start (retry_time ∷ replicate success_threshold retry_time)
        (record { circuit = mark_half_open opened; waiting = 1 }) half_open

-- With a failure threshold of two or more, the write that `IsOpen` makes after it has given up
-- the read lock can undo a recovery: a state can be reached in which the circuit is closed with
-- no failure counted and one caller waits between the locks. Its write makes the circuit
-- half-open, and then a single failure opens it, where without that write, also through an
-- `IsOpen` that is not interrupted, the failure leaves it closed.
pub late_write-reopens :
    (config : CircuitBreakerConfig) (now : ℕ)
    → 2 ≤ config.failure_threshold
    → (s : Shared) × Reach config start s
      × (s.circuit.state ≡ circuit_closed)
      × (s.circuit.consecutive_fails ≡ 0)
      × (s.waiting ≡ 1)
      × Step config s (record { circuit = mark_half_open s.circuit; waiting = 0 })
      × ((fail config now (mark_half_open s.circuit)).state ≡ circuit_open)
      × ((fail config now s.circuit).state ≡ circuit_closed)
      × ((fail config now (ask config now s.circuit).0).state ≡ circuit_closed)
unfolding fail mark_half_open ask
late_write-reopens config now h = (
  record { circuit = closed_again config; waiting = 1 },
  Reach-closed_again config,
  closed_again-state config,
  closed_again-fails config,
  refl,
  write 0 refl refl,
  ground arith,
  ground (arith, closed_again-state config, closed_again-fails config),
  ground (arith, closed_again-state config, closed_again-fails config),
)

-- The readings of the clock on the way are before `limit`.
abbrev pub Before :
    (limit : ℕ) {config : CircuitBreakerConfig} {s u : Shared} → Step config s u → Type 0
Before limit (read now found made) = now < limit
Before limit (write w waits made) = Unit
Before limit (succeeds now made) = now < limit
Before limit (fails now made) = now < limit

abbrev pub AllBefore :
    (limit : ℕ) {config : CircuitBreakerConfig} {s u : Shared} → Reach config s u → Type 0
AllBefore limit here = Unit
AllBefore limit (next r step) = AllBefore limit r × Before limit step

-- Open since `moment`, with no caller between the locks.
record Blocked (moment : ℕ) (u : Shared) : Type 0 where
  pub still_open : u.circuit.state ≡ circuit_open
  pub since : u.circuit.opened_at ≡ moment
  pub unattended : u.waiting ≡ 0

probe-blocked :
    (config : CircuitBreakerConfig) (now : ℕ) (c : ModelCircuit)
    → c.state ≡ circuit_open
    → now < c.opened_at + config.timeout
    → probe config now c ≡ blocked
unfolding probe
probe-blocked config now c o l =
    let late : leb (c.opened_at + config.timeout) now ≡ false = ground (arith, l) in
    rw (o, late) refl

Step-Blocked :
    (config : CircuitBreakerConfig) (moment : ℕ) {s u : Shared} (step : Step config s u)
    → Before (moment + config.timeout) step
    → Blocked moment s
    → Blocked moment u
Step-Blocked config moment {s} (read now found made) l b =
    let shut = probe-blocked config now s.circuit b.still_open (rw b.since l) in cc (shut, found)
Step-Blocked config moment (write w waits made) l b = cc (b.unattended, waits)
Step-Blocked config moment {s} (succeeds now made) l b = subst (Blocked moment) (sym made) (record {
  still_open = unfold succeed in ground (arith, b.still_open);
  since = unfold succeed in ground (arith, b.since);
  unattended = b.unattended;
})
Step-Blocked config moment {s} (fails now made) l b = subst (Blocked moment) (sym made) (record {
  still_open = unfold fail in ground (arith, b.still_open);
  since = unfold fail in ground (arith, b.since);
  unattended = b.unattended;
})

Reach-Blocked :
    (config : CircuitBreakerConfig) (moment : ℕ) {s u : Shared} (r : Reach config s u)
    → AllBefore (moment + config.timeout) r
    → Blocked moment s
    → Blocked moment u
Reach-Blocked config moment here l b = b
Reach-Blocked config moment (next r step) l b =
    Step-Blocked config moment step l.1 (Reach-Blocked config moment r l.0 b)

-- An open circuit blocks, as long as no caller of `IsOpen` is between its two locks: after any
-- halves of `IsOpen`, successes and failures in any order before the timeout has passed since it was
-- opened, with no reset among them, it is open since the same moment, no caller has come to wait
-- between the locks, and a call of `IsOpen` before the timeout finds it blocked.
pub blocked-until_timeout :
    (config : CircuitBreakerConfig) (s u : Shared) (r : Reach config s u) (now : ℕ)
    → s.circuit.state ≡ circuit_open
    → s.waiting ≡ 0
    → AllBefore (s.circuit.opened_at + config.timeout) r
    → now < s.circuit.opened_at + config.timeout
    → (u.circuit.state ≡ circuit_open)
      × (u.circuit.opened_at ≡ s.circuit.opened_at)
      × (u.waiting ≡ 0)
      × (probe config now u.circuit ≡ blocked)
blocked-until_timeout config s u r now o w before l =
    let b =
      Reach-Blocked config s.circuit.opened_at r before
        (record { still_open = o; since = refl; unattended = w }) in
    (
      b.still_open,
      b.since,
      b.unattended,
      probe-blocked config now u.circuit b.still_open (rw b.since l),
    )
