-- ===== src/Prelude/Dict.antt =====
-- A Go map keyed by strings, as an association list without repeated keys.
use Prim.Native.String.{String}
use mathlib.Core.Path.{◌≡◌, refl, subst}
use mathlib.Core.Logic.{◌≢◌, inl, inr}
use mathlib.Core.List.{List, [], ◌∷◌}
use mathlib.Core.Option.{Option, none, some}
use native.Mathlib.Omega.{arith}
use text.Mathlib.Text.{◌==◌ as str_eq}
use text.Mathlib.TextEquality.{eq_iff}
use cryptofunk.Prelude.Tests.{if◌then◌else◌, Bool-cases}

abbrev pub Dict {ℓ} : Type ℓ → Type ℓ
Dict A = List (String × A)

module _ {ℓ} {A : Type ℓ} where
  -- `delete(m, key)`
  unfoldable pub erase : String → Dict A → Dict A
  erase key [] = []
  erase key ((name, a) ∷ rest) =
      let others = erase key rest in if str_eq name key then others else (name, a) ∷ others

  -- `m[key] = new`
  unfoldable pub insert : String → A → Dict A → Dict A
  insert key new [] = (key, new) ∷ []
  insert key new ((name, a) ∷ rest) =
      let others = insert key new rest in
      if str_eq name key then (key, new) ∷ rest else (name, a) ∷ others

  -- `m[key]`, with `none` for a missing key.
  unfoldable pub lookup : String → Dict A → Option A
  lookup key [] = none
  lookup key ((name, a) ∷ rest) =
      let other = lookup key rest in if str_eq name key then some a else other

  -- A predicate on every key with its value.
  abbrev pub Entries {κ} : (String → A → Type κ) → Dict A → Type κ
  Entries P [] = Unit
  Entries P ((key, a) ∷ rest) = P key a × Entries P rest

  pub Entries-insert {κ} :
      (P : String → A → Type κ) (key : String) (a : A) (m : Dict A)
      → P key a
      → Entries P m
      → Entries P (insert key a m)
  unfolding insert
  Entries-insert P key a [] p h = (p, tt)
  Entries-insert P key a ((name, b) ∷ rest) p h = elim (Bool-cases (str_eq name key)) [
    | inl e ↦ rw e (p, h.1)
    | inr e ↦ rw e (h.0, Entries-insert P key a rest p h.1)
  ]

  pub Entries-lookup {κ} :
      (P : String → A → Type κ) (key : String) (m : Dict A) {a : A}
      → Entries P m
      → lookup key m ≡ some a
      → P key a
  unfolding lookup
  Entries-lookup P key [] h l = cc
  Entries-lookup P key ((name, b) ∷ rest) {a} h l = elim (Bool-cases (str_eq name key)) [
    | inl e ↦
        let same : name ≡ key = (eq_iff name key).0 e in
        let found : b ≡ a = cc (rw e at l) in
        subst (λ k. P k a) same (subst (λ v. P name v) found h.0)
    | inr e ↦ Entries-lookup P key rest h.1 (rw e at l)
  ]

  pub Entries-missing :
      (key : String) (m : Dict A) → lookup key m ≡ none → Entries (λ name a. name ≢ key) m
  unfolding lookup
  Entries-missing key [] l = tt
  Entries-missing key ((name, b) ∷ rest) l = elim (Bool-cases (str_eq name key)) [
    | inl e ↦ cc (rw e at l)
    | inr e ↦ (λ same. cc (e, (eq_iff name key).1 same), Entries-missing key rest (rw e at l))
  ]

  pub lookup-erase :
      (gone key : String) (m : Dict A)
      → lookup key (erase gone m) ≡ (if str_eq gone key then none else lookup key m)
  unfolding lookup erase
  lookup-erase gone key [] = ground arith
  lookup-erase gone key ((name, a) ∷ rest) =
      ground (arith, lookup-erase gone key rest, eq_iff name gone, eq_iff gone key, eq_iff name key)

  pub lookup-insert :
      (made key : String) (new : A) (m : Dict A)
      → lookup key (insert made new m) ≡ (if str_eq made key then some new else lookup key m)
  unfolding insert lookup
  lookup-insert made key new [] = refl
  lookup-insert made key new ((name, a) ∷ rest) =
      ground
        (arith, lookup-insert made key new rest, eq_iff name made, eq_iff made key, eq_iff name key)
