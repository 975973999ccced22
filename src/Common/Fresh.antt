-- ===== src/Common/Fresh.antt =====
-- The search for a free name that several parts of the program make: try candidate after
-- candidate until one is not taken. The Python loops are unbounded; here they have fuel, and one
-- more round than there are taken names is always enough when the candidates differ.
use Prim.Native.Nat.{ℕ, zero, suc, ◌≤◌, ◌<◌}
use mathlib.Core.Path.{◌≡◌, refl, sym, ◌∙◌}
use mathlib.Core.Logic.{inl, inr, ◌≢◌}
use mathlib.Core.Bool.{true, false}
use mathlib.Core.List.{List, [], ◌∷◌}
use mathlib.Core.Option.{Option, none, some}
use native.Mathlib.Omega.{arith}
use shark_turbine.Common.Tests.{if◌then◌else◌, Bool-cases}
use shark_turbine.Common.Lists.{length}
use shark_turbine.Common.Equality.{Key, ◌==◌, contains}

module _ {ℓ} {A : Type ℓ} ⦃e : Key A⦄ where
  without : A → List A → List A
  without a [] = []
  without a (x ∷ xs) = let rest = without a xs in if a == x then rest else x ∷ rest

  length-without-le : (a : A) (xs : List A) → length (without a xs) ≤ length xs
  unfolding without
  length-without-le a [] = omega arith
  length-without-le a (x ∷ xs) = ground (arith, length-without-le a xs)

  length-without : (a : A) (xs : List A) → contains a xs ≡ true → length (without a xs) < length xs
  unfolding without
  length-without a [] h = ground arith
  length-without a (x ∷ xs) h = ground (arith, length-without-le a xs, length-without a xs)

  contains-without : (a b : A) (xs : List A) → b ≢ a → contains b (without a xs) ≡ contains b xs
  unfolding without
  contains-without a b [] h = refl
  contains-without a b (x ∷ xs) h =
      ground (arith, e.same_iff a x, e.same_iff b x, contains-without a b xs h)

module _ {ℓ} {A : Type ℓ} ⦃e : Key A⦄ (candidate : ℕ → A) where
  unfoldable pub first_free : ℕ → List A → ℕ → Option A
  first_free zero taken i = none
  first_free (suc fuel) taken i =
      let rest = first_free fuel taken (suc i) in
      if contains (candidate i) taken then rest else some (candidate i)

  -- What the search returns is not taken.
  pub first_free_fresh :
      (fuel : ℕ) (taken : List A) (i : ℕ) (n : A)
      → first_free fuel taken i ≡ some n
      → contains n taken ≡ false
  unfolding first_free
  first_free_fresh zero taken i n h = ground arith
  first_free_fresh (suc fuel) taken i n h = ground (arith, first_free_fresh fuel taken (suc i) n)

  module _ (distinct : (i j : ℕ) → candidate i ≡ candidate j → i ≡ j) where
    first_free-without :
        (fuel : ℕ) (taken : List A) (i j : ℕ)
        → i < j
        → first_free fuel (without (candidate i) taken) j ≡ first_free fuel taken j
    unfolding first_free
    first_free-without zero taken i j h = refl
    first_free-without (suc fuel) taken i j h = rw (
      contains-without (candidate i) (candidate j) taken
          (λ p. absurd (omega (arith, distinct j i p))),
      first_free-without fuel taken i (suc j) (omega arith),
    )

    -- With more fuel than names, the search returns.
    pub first_free_total :
        (fuel : ℕ) (taken : List A) (i : ℕ)
        → length taken < fuel
        → (n : A) × (first_free fuel taken i ≡ some n)
    unfolding first_free
    first_free_total zero taken i h = elim h [ ]
    first_free_total (suc fuel) taken i h = elim (Bool-cases (contains (candidate i) taken)) [
      | inr free ↦ (candidate i, rw free)
      | inl busy ↦
          let (n, found) =
            first_free_total fuel (without (candidate i) taken) (suc i)
              (omega (arith, length-without (candidate i) taken busy)) in
          (n, rw busy (sym (first_free-without fuel taken i (suc i) (omega arith)) ∙ found))
    ]
