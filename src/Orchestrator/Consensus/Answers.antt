-- ===== src/Orchestrator/Consensus/Answers.antt =====
-- internal/orchestrator/consensus.go: `SubmitDelphiResponse` compares the number of responses with
-- the number of participants; what that says of who has responded.
use cryptofunk.Prelude.{
  ℕ, suc, ◌==◌, ◌≤◌, ◌<◌, String, Bool, true, false, ◌≡◌, refl, ap, inl, inr, Bool-cases, Option,
  none, some, List, [], ◌∷◌, if◌then◌else◌, length, str_eq, eq_iff, arith,
}
use cryptofunk.Prelude.Dict.{
  Dict, Entries, Entries-insert, lookup, insert, erase, lookup-erase, lookup-insert,
}
use cryptofunk.Orchestrator.Consensus.Rounds.{is_participant}

abbrev pub is_some : {A : Type 0} → Option A → Bool
is_some none = false
is_some (some a) = true

-- No name stands twice.
abbrev pub Distinct : List String → Type 0
Distinct [] = Unit
Distinct (p ∷ ps) = (is_participant p ps ≡ false) × Distinct ps

module _ {A : Type 0} where
  abbrev pub DistinctKeys : Dict A → Type 0
  DistinctKeys [] = Unit
  DistinctKeys ((k, a) ∷ m) = (lookup k m ≡ none) × DistinctKeys m

  abbrev pub KeysAmong : List String → Dict A → Type 0
  KeysAmong ps m = Entries (λ k a. is_participant k ps ≡ true) m

  unfoldable pub all_answered : List String → Dict A → Bool
  all_answered [] m = true
  all_answered (p ∷ ps) m =
      let others = all_answered ps m in if is_some (lookup p m) then others else false

  -- How many of the names have answered.
  answered : List String → Dict A → ℕ
  answered [] m = 0
  answered (p ∷ ps) m =
      let others = answered ps m in if is_some (lookup p m) then suc others else others

  answered-le : (ps : List String) (m : Dict A) → answered ps m ≤ length ps
  unfolding answered
  answered-le [] m = omega arith
  answered-le (p ∷ ps) m = ground (arith, answered-le ps m)

  all_answered-full :
      (ps : List String) (m : Dict A) → answered ps m ≡ length ps → all_answered ps m ≡ true
  unfolding answered all_answered
  all_answered-full [] m h = refl
  all_answered-full (p ∷ ps) m h = ground (arith, all_answered-full ps m, answered-le ps m)

  answered-weaken :
      (k : String) (a : A) (ps : List String) (m : Dict A)
      → answered ps m ≤ answered ps ((k, a) ∷ m)
  unfolding answered lookup
  answered-weaken k a [] m = omega arith
  answered-weaken k a (p ∷ ps) m = ground (arith, answered-weaken k a ps m)

  answered-new :
      (k : String) (a : A) (ps : List String) (m : Dict A)
      → lookup k m ≡ none
      → is_participant k ps ≡ true
      → suc (answered ps m) ≤ answered ps ((k, a) ∷ m)
  unfolding answered lookup
  answered-new k a [] m n h = cc
  answered-new k a (p ∷ ps) m n h = elim (Bool-cases (str_eq p k)) [
    | inl e ↦ ground (arith, e, n, eq_iff p k, eq_iff k p, answered-weaken k a ps m)
    | inr e ↦ ground (arith, e, eq_iff p k, eq_iff k p, answered-new k a ps m n (rw e at h))
  ]

  -- Distinct keys among the names are no more than the names that have answered.
  length-le-answered :
      (ps : List String) (m : Dict A) → DistinctKeys m → KeysAmong ps m → length m ≤ answered ps m
  unfolding answered
  length-le-answered ps [] d k = omega arith
  length-le-answered ps ((key, a) ∷ m) d k =
      omega (arith, length-le-answered ps m d.1 k.1, answered-new key a ps m d.0 k.0)

  length-erase : (p : String) (m : Dict A) → length (erase p m) ≤ length m
  unfolding erase
  length-erase p [] = omega arith
  length-erase p ((k, a) ∷ m) = ground (arith, length-erase p m)

  length-erase_answered :
      (p : String) (m : Dict A) → is_some (lookup p m) ≡ true → suc (length (erase p m)) ≤ length m
  unfolding lookup erase
  length-erase_answered p [] h = cc
  length-erase_answered p ((k, a) ∷ m) h =
      ground (arith, length-erase_answered p m, length-erase p m)

  all_answered-erase :
      (p : String) (ps : List String) (m : Dict A)
      → is_participant p ps ≡ false
      → all_answered ps m ≡ true
      → all_answered ps (erase p m) ≡ true
  unfolding all_answered
  all_answered-erase p [] m n h = refl
  all_answered-erase p (q ∷ ps) m n h =
      ground (arith, all_answered-erase p ps m, lookup-erase p q m, eq_iff p q, eq_iff q p)

  length-le_all_answered :
      (ps : List String) (m : Dict A)
      → Distinct ps
      → all_answered ps m ≡ true
      → length ps ≤ length m
  unfolding all_answered
  length-le_all_answered [] m d h = omega arith
  length-le_all_answered (p ∷ ps) m d h =
      let have : is_some (lookup p m) ≡ true = ground (arith, h) in
      let rest : all_answered ps m ≡ true = ground (arith, h) in
      let ih = length-le_all_answered ps (erase p m) d.1 (all_answered-erase p ps m d.0 rest) in
      omega (arith, ih, length-erase_answered p m have)

  -- The code's comparison of numbers says that everyone has answered.
  pub full-eq-all_answered :
      (ps : List String) (m : Dict A)
      → Distinct ps
      → DistinctKeys m
      → KeysAmong ps m
      → (length m == length ps) ≡ all_answered ps m
  full-eq-all_answered ps m d k among =
      let least = length-le-answered ps m k among in
      let most = answered-le ps m in
      elim (Bool-cases (all_answered ps m)) [
        | inl e ↦
            rw e (let more = length-le_all_answered ps m d e in ground (arith, more, least, most))
        | inr e ↦ ground (arith, e, all_answered-full ps m, least, most)
      ]

  DistinctKeys-insert :
      (key : String) (a : A) (m : Dict A) → DistinctKeys m → DistinctKeys (insert key a m)
  unfolding insert lookup
  DistinctKeys-insert key a [] d = (refl, tt)
  DistinctKeys-insert key a ((k, b) ∷ m) d = elim (Bool-cases (str_eq k key)) [
    | inl e ↦ rw e (rw (← (eq_iff k key).0 e) d.0, d.1)
    | inr e ↦ rw e (
      rw (lookup-insert key k a m) (ground (arith, d.0, e, eq_iff key k, eq_iff k key)),
      DistinctKeys-insert key a m d.1,
    )
  ]

  pub answers-insert :
      (ps : List String) (key : String) (a : A) (m : Dict A)
      → is_participant key ps ≡ true
      → DistinctKeys m × KeysAmong ps m
      → DistinctKeys (insert key a m) × KeysAmong ps (insert key a m)
  answers-insert ps key a m p (d, k) = (
    DistinctKeys-insert key a m d,
    Entries-insert (λ k a. is_participant k ps ≡ true) key a m p k,
  )

  -- With a name that stands twice, the numbers are never equal.
  DistinctKeys-erase : (p : String) (m : Dict A) → DistinctKeys m → DistinctKeys (erase p m)
  unfolding erase
  DistinctKeys-erase p [] d = tt
  DistinctKeys-erase p ((k, b) ∷ m) d = elim (Bool-cases (str_eq k p)) [
    | inl e ↦ rw e (DistinctKeys-erase p m d.1)
    | inr e ↦ rw e (rw (lookup-erase p k m) (ground (arith, d.0)), DistinctKeys-erase p m d.1)
  ]

  KeysAmong-erase :
      (p : String) (ps : List String) (m : Dict A) → KeysAmong (p ∷ ps) m → KeysAmong ps (erase p m)
  unfolding erase
  KeysAmong-erase p ps [] h = tt
  KeysAmong-erase p ps ((k, b) ∷ m) h = elim (Bool-cases (str_eq k p)) [
    | inl e ↦ rw e (KeysAmong-erase p ps m h.1)
    | inr e ↦ rw e (ground (arith, h.0, e, eq_iff k p, eq_iff p k), KeysAmong-erase p ps m h.1)
  ]

  KeysAmong-twice :
      (p : String) (ps : List String) (m : Dict A)
      → is_participant p ps ≡ true
      → KeysAmong (p ∷ ps) m
      → KeysAmong ps m
  KeysAmong-twice p ps [] t h = tt
  KeysAmong-twice p ps ((k, b) ∷ m) t h =
      (ground (arith, h.0, t, eq_iff p k), KeysAmong-twice p ps m t h.1)

  erase_missing : (p : String) (m : Dict A) → lookup p m ≡ none → erase p m ≡ m
  unfolding erase lookup
  erase_missing p [] n = refl
  erase_missing p ((k, b) ∷ m) n = elim (Bool-cases (str_eq k p)) [
    | inl e ↦ cc (rw e at n)
    | inr e ↦ rw e (ap (λ r. (k, b) ∷ r) (erase_missing p m (rw e at n)))
  ]

  length-erase_distinct :
      (p : String) (m : Dict A) → DistinctKeys m → length m ≤ suc (length (erase p m))
  unfolding erase
  length-erase_distinct p [] d = omega arith
  length-erase_distinct p ((k, b) ∷ m) d = elim (Bool-cases (str_eq k p)) [
    | inl e ↦ rw e (rw (erase_missing p m (rw (← (eq_iff k p).0 e) d.0)) (omega arith))
    | inr e ↦ rw e (omega (arith, length-erase_distinct p m d.1))
  ]

  pub length-lt_repeated :
      (ps : List String) (m : Dict A)
      → ¬ Distinct ps
      → DistinctKeys m
      → KeysAmong ps m
      → length m < length ps
  length-lt_repeated [] m r d k = absurd (r tt)
  length-lt_repeated (p ∷ ps) m r d k = elim (Bool-cases (is_participant p ps)) [
    | inl twice ↦
        let least = length-le-answered ps m d (KeysAmong-twice p ps m twice k) in
        omega (arith, least, answered-le ps m)
    | inr once ↦
        let ih =
          length-lt_repeated ps (erase p m) (λ h. r (once, h)) (DistinctKeys-erase p m d)
            (KeysAmong-erase p ps m k) in
        omega (arith, ih, length-erase_distinct p m d)
  ]
