-- ===== src/Prelude/Keep.antt =====
-- Laws of `keep`, the filter by a Boolean test, and of `drop`.
use Prim.Native.Nat.{ℕ, zero, suc, ◌+◌, ◌≤◌}
use mathlib.Core.Path.{◌≡◌, refl, ap}
use mathlib.Core.Logic.{inl, inr}
use mathlib.Core.Bool.{Bool, true, not}
use mathlib.Core.List.{List, [], ◌∷◌, ◌++◌}
use native.Mathlib.Omega.{arith}
use cryptofunk.Prelude.Tests.{Bool-cases}
use cryptofunk.Prelude.Lists.{length, drop, keep, All}

module _ {A : Type 0} where
  pub All-keep : (p : A → Bool) (xs : List A) → All (λ x. p x ≡ true) (keep p xs)
  All-keep p [] = tt
  All-keep p (x ∷ xs) = elim (Bool-cases (p x)) [
    | inl e ↦ rw e (e, All-keep p xs)
    | inr e ↦ rw e (All-keep p xs)
  ]

  pub All-drop : (P : A → Type 0) (n : ℕ) (xs : List A) → All P xs → All P (drop n xs)
  All-drop P zero xs h = h
  All-drop P (suc n) [] h = h
  All-drop P (suc n) (x ∷ xs) h = All-drop P n xs h.1

  pub keep_self : (p : A → Bool) (xs : List A) → All (λ x. p x ≡ true) xs → keep p xs ≡ xs
  keep_self p [] h = refl
  keep_self p (x ∷ xs) h = ground (arith, keep_self p xs h.1)

  pub keep-nil : (p : A → Bool) (xs : List A) → All (λ x. not (p x) ≡ true) xs → keep p xs ≡ []
  keep-nil p [] h = refl
  keep-nil p (x ∷ xs) h = ground (arith, keep-nil p xs h.1)

  pub keep-not_nil :
      (p : A → Bool) (xs : List A) → All (λ x. p x ≡ true) xs → keep (λ x. not (p x)) xs ≡ []
  keep-not_nil p [] h = refl
  keep-not_nil p (x ∷ xs) h = ground (arith, keep-not_nil p xs h.1)

  pub length-keep_split :
      (p : A → Bool) (xs : List A)
      → length (keep p xs) + length (keep (λ x. not (p x)) xs) ≡ length xs
  length-keep_split p [] = omega arith
  length-keep_split p (x ∷ xs) = ground (arith, length-keep_split p xs)

module _ {ℓ} {A : Type ℓ} where
  pub drop-suffix : (n : ℕ) (xs : List A) → (pre : List A) × (xs ≡ pre ++ drop n xs)
  drop-suffix zero xs = ([], refl)
  drop-suffix (suc n) [] = ([], refl)
  drop-suffix (suc n) (x ∷ xs) = let (pre, e) = drop-suffix n xs in (x ∷ pre, ap (λ r. x ∷ r) e)

  pub drop-append :
      (n : ℕ) (xs : List A) (y : A) → n ≤ length xs → drop n (xs ++ y ∷ []) ≡ drop n xs ++ y ∷ []
  drop-append zero xs y l = refl
  drop-append (suc n) [] y l = absurd (omega arith)
  drop-append (suc n) (x ∷ xs) y l = drop-append n xs y (omega arith)
