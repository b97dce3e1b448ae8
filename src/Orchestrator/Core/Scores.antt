-- ===== src/Orchestrator/Core/Scores.antt =====
-- internal/orchestrator/orchestrator.go: the map of the scores of actions.
use cryptofunk.Prelude.{
  str_eq, String, true, false, ◌≡◌, refl, ap, subst, sym, inl, inr, Bool-cases, none, some, [], ◌∷◌,
  All, arith,
}
use text.Mathlib.TextEquality.{eq_iff}
use cryptofunk.Prelude.Dict.{Dict, lookup, insert, lookup-insert}
use cryptofunk.Orchestrator.Consensus.Award.{In}

module _ {F : Type 0} where
  -- No action has two scores.
  abbrev pub Distinct : Dict F → Type 0
  Distinct [] = Unit
  Distinct ((action, score) ∷ rest) = (lookup action rest ≡ none) × Distinct rest

  pub Distinct-insert :
      (action : String) (score : F) (m : Dict F) → Distinct m → Distinct (insert action score m)
  unfolding insert lookup
  Distinct-insert action score [] h = (refl, tt)
  Distinct-insert action score ((other, old) ∷ m) h = elim (Bool-cases (str_eq other action)) [
    | inl e ↦ let same : other ≡ action = (eq_iff other action).0 e in rw e (rw (← same) h.0, h.1)
    | inr e ↦
        let apart : str_eq action other ≡ false =
          ground (arith, eq_iff other action, eq_iff action other) in
        rw e
          (rw (lookup-insert action other score m, apart) h.0, Distinct-insert action score m h.1)
  ]

  pub In-lookup :
      (action : String) (score : F) (m : Dict F)
      → Distinct m
      → In (action, score) m
      → lookup action m ≡ some score
  unfolding lookup
  In-lookup action score [] d i = absurd i
  In-lookup action score ((other, old) ∷ m) d (inl e) =
      let same : action ≡ other = ap (λ x. x.0) e in
      let value : score ≡ old = ap (λ x. x.1) e in
      let yes : str_eq other action ≡ true = (eq_iff other action).1 (sym same) in
      rw yes (ap some (sym value))
  In-lookup action score ((other, old) ∷ m) d (inr i) =
      let there = In-lookup action score m d.1 i in
      elim (Bool-cases (str_eq other action)) [
        | inl e ↦
            let same : other ≡ action = (eq_iff other action).0 e in cc (rw same at d.0, there)
        | inr e ↦ rw e there
      ]

  pub All-lookup :
      (P : F → Type 0) (action : String) (m : Dict F) {score : F}
      → All (λ entry. P entry.1) m
      → lookup action m ≡ some score
      → P score
  unfolding lookup
  All-lookup P action [] h l = cc
  All-lookup P action ((other, old) ∷ m) h l = elim (Bool-cases (str_eq other action)) [
    | inl e ↦ subst P (let same : old ≡ _ = cc (rw e at l) in same) h.0
    | inr e ↦ All-lookup P action m h.1 (rw e at l)
  ]
