-- ===== src/Transforms/Merger/Unique.antt =====
-- transforms/merger.py: the search of `uniqueify_name` for a free name.
use shark_turbine.Common.{
  ℕ, zero, suc, ◌≡◌, refl, ap, sym, false, List, ◌++◌, some, Name, codes, length, length-append,
  append_cancel, arith, contains, list_key, nat_key,
}
use shark_turbine.Common.Decimal.{show_nat, show_nat-injective}
use shark_turbine.Common.Fresh.{first_free, first_free_fresh, first_free_total}
use shark_turbine.Transforms.Merger.{candidate, uniqueify_name}

numbered-injective :
    (n : Name) (i j : ℕ) → n ++ (codes "$" ++ show_nat i) ≡ n ++ (codes "$" ++ show_nat j) → i ≡ j
numbered-injective n i j h = show_nat-injective i j (
    append_cancel (codes "$") (show_nat i) (show_nat j)
      (append_cancel n (codes "$" ++ show_nat i) (codes "$" ++ show_nat j) h))

longer : (n : Name) (i : ℕ) → n ≡ n ++ (codes "$" ++ show_nat i) → ⊥
longer n i h = omega (
  arith,
  ap length h,
  length-append n (codes "$" ++ show_nat i),
  length-append (codes "$") (show_nat i),
)

candidate-injective : (n : Name) (i j : ℕ) → candidate n i ≡ candidate n j → i ≡ j
unfolding candidate
candidate-injective n zero zero h = refl
candidate-injective n zero (suc j) h = absurd (longer n (suc j) h)
candidate-injective n (suc i) zero h = absurd (longer n (suc i) (sym h))
candidate-injective n (suc i) (suc j) h = numbered-injective n (suc i) (suc j) h

-- A free name is itself returned.
uniqueify_name-free :
    (n : Name) (st : List Name) → contains n st ≡ false → uniqueify_name n st ≡ some n
unfolding uniqueify_name candidate first_free
uniqueify_name-free n st h = rw h

-- The search for a free name ends for every name and symbol table, at a name that is not in the
-- table; a name that is not in the table is itself returned.
pub uniqueify_name_lem :
    (local_name : Name) (st : List Name)
    → (full_name : Name) × (uniqueify_name local_name st ≡ some full_name)
      × (contains full_name st ≡ false)
      × (contains local_name st ≡ false → full_name ≡ local_name)
unfolding uniqueify_name
uniqueify_name_lem n st =
    let (m, found) =
      first_free_total (candidate n) (candidate-injective n) (suc (length st)) st 0 (omega arith) in
    (
      m,
      found,
      first_free_fresh (candidate n) (suc (length st)) st 0 m found,
      λ free. cc (found, uniqueify_name-free n st free),
    )
