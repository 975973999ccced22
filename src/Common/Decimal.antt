-- ===== src/Common/Decimal.antt =====
-- `str(n)` of a Python `int`, as code points: most significant digit first.
use Prim.Native.Nat.{ℕ, zero, suc, ◌+◌, ◌-◌, ◌*◌, ◌/◌, ◌%◌, ◌≤◌}
use mathlib.Core.Path.{◌≡◌, refl, ap, sym, ◌∙◌}
use mathlib.Core.Bool.{Bool, true, ◌&&◌}
use mathlib.Core.List.{List, [], ◌∷◌, ◌++◌, foldl, foldl-append}
use mathlib.Core.Logic.{inl, inr}
use native.Mathlib.Omega.{arith}
use shark_turbine.Common.Lists.{All, All-append}
use shark_turbine.Common.Tests.{ltb, leb, if◌then◌else◌, Bool-cases}

-- The fuel bounds the number of digits; `n` digits are more than enough for `n`.
digits : ℕ → ℕ → List ℕ
digits zero n = (48 + n % 10) ∷ []
digits (suc fuel) n =
    let more = digits fuel (n / 10) ++ (48 + n % 10) ∷ [] in
    if ltb n 10 then (48 + n) ∷ [] else more

unfoldable pub show_nat : ℕ → List ℕ
unfolding digits
show_nat n = digits n n

abbrev add_digit : ℕ → ℕ → ℕ
add_digit acc c = acc * 10 + (c - 48)

read_nat : List ℕ → ℕ
read_nat = foldl add_digit 0

read_nat-digits : (fuel n : ℕ) → n ≤ fuel → read_nat (digits fuel n) ≡ n
unfolding digits read_nat
read_nat-digits zero n h = omega arith
read_nat-digits (suc fuel) n h = elim (Bool-cases (ltb n 10)) [
  | inl small ↦ rw small (omega arith)
  | inr large ↦
      let ih = read_nat-digits fuel (n / 10) (ground arith) in
      rw (large, foldl-append) (rw ih (omega arith))
]

-- Two numbers with the same text are equal.
pub show_nat-injective : (m n : ℕ) → show_nat m ≡ show_nat n → m ≡ n
unfolding show_nat
show_nat-injective m n h =
    sym (read_nat-digits m m (omega arith)) ∙ ap read_nat h ∙ read_nat-digits n n (omega arith)

abbrev pub is_digit : ℕ → Bool
is_digit c = leb 48 c && leb c 57

is_digit-digits : (fuel n : ℕ) → All (λ c. is_digit c ≡ true) (digits fuel n)
unfolding digits
is_digit-digits zero n = (ground arith, tt)
is_digit-digits (suc fuel) n = elim (Bool-cases (ltb n 10)) [
  | inl small ↦ rw small (ground arith, tt)
  | inr large ↦ rw large (
      All-append (λ c. is_digit c ≡ true) (digits fuel (n / 10)) _ (is_digit-digits fuel (n / 10))
        (ground arith, tt))
]

-- Every character of a number's text is a digit.
pub is_digit-show_nat : (n : ℕ) → All (λ c. is_digit c ≡ true) (show_nat n)
unfolding show_nat
is_digit-show_nat n = is_digit-digits n n

append_singleton_cons : (xs : List ℕ) (x : ℕ) → (c : ℕ) × (t : List ℕ) × (xs ++ x ∷ [] ≡ c ∷ t)
append_singleton_cons [] x = (x, [], refl)
append_singleton_cons (y ∷ xs) x = (y, xs ++ x ∷ [], refl)

digits-cons : (fuel n : ℕ) → (c : ℕ) × (t : List ℕ) × (digits fuel n ≡ c ∷ t)
unfolding digits
digits-cons zero n = (48 + n % 10, [], refl)
digits-cons (suc fuel) n = elim (Bool-cases (ltb n 10)) [
  | inl small ↦ (48 + n, [], rw small refl)
  | inr large ↦
      let (c, t, e) = append_singleton_cons (digits fuel (n / 10)) (48 + n % 10) in
      (c, t, rw large e)
]

-- A number's text is not empty.
pub show_nat-cons : (n : ℕ) → (c : ℕ) × (t : List ℕ) × (show_nat n ≡ c ∷ t)
unfolding show_nat
show_nat-cons n = digits-cons n n
