-- ===== src/Tests/Data.antt =====
-- Concrete dictionaries of parameters for llm/turbine_llm/data.
use shark_turbine.Common.{
  ℕ, ◌≡◌, ◌≢◌, refl, false, List, [], ◌∷◌, Name, codes, inr, list_beq_iff, nat_key, list_key, ◌==◌,
}
use shark_turbine.Common.Exc.{assertion_error, ok, err}
use shark_turbine.Data.Theta.{
  Tree, leaf, node, empty, entry, find, put, split, split_from, add_to_dict, add_all,
  flat_to_nested_dict, sub_theta, flatten, accum, flatten_tree, new_prefix, descend, items,
}
use shark_turbine.Data.Theta.Nesting.{Separate, Nests, flat_to_nested_dict-Nests}

abbrev flat : List (Name × Tree ℕ)
flat = (codes "a.b", leaf 1) ∷ (codes "c", leaf 2) ∷ (codes "a.d", leaf 3) ∷ []

differ : (m n : Name) → (m == n) ≡ false → m ≢ n
differ m n h e = let same = (list_beq_iff m n).1 e in cc

flat-Separate : Separate flat
unfolding split split_from
flat-Separate =
    let a_c = differ (codes "a") (codes "c") refl in
    let c_a = differ (codes "c") (codes "a") refl in
    let b_d = differ (codes "b") (codes "d") refl in
    let d_b = differ (codes "d") (codes "b") refl in
    (((a_c, c_a), ((inr (refl, b_d), inr (refl, d_b)), tt)), (((c_a, a_c), tt), (tt, tt)))

flat_to_nested_dict-Nests_example : Nests flat empty (flat_to_nested_dict flat)
flat_to_nested_dict-Nests_example = flat_to_nested_dict-Nests flat flat-Separate

nested_test :
    flat_to_nested_dict flat
    ≡ ok (
        entry
          (codes "a")
          (node (entry (codes "b") (leaf 1) (entry (codes "d") (leaf 3) empty)))
          (entry (codes "c") (leaf 2) empty))
unfolding flat_to_nested_dict add_all add_to_dict split split_from find put
nested_test = refl

-- A tensor where a dictionary is needed is noticed, and a dictionary where a tensor is put is not.
collision_test :
    flat_to_nested_dict {V = ℕ} ((codes "a", leaf 1) ∷ (codes "a.b", leaf 2) ∷ [])
    ≡ err assertion_error
unfolding flat_to_nested_dict add_all add_to_dict split split_from find put
collision_test = refl

overwritten_test :
    flat_to_nested_dict {V = ℕ} ((codes "a.b", leaf 2) ∷ (codes "a", leaf 1) ∷ [])
    ≡ ok (entry (codes "a") (leaf 1) empty)
unfolding flat_to_nested_dict add_all add_to_dict split split_from find put
overwritten_test = refl

flatten_test :
    flatten {V = ℕ} (
      entry
        (codes "a")
        (node (entry (codes "b") (leaf 1) empty))
        (entry (codes "c") (leaf 2) empty))
    ≡ (codes "a.b", 1) ∷ (codes "c", 2) ∷ []
unfolding flatten accum flatten_tree new_prefix
flatten_test = refl

sub_theta_test :
    sub_theta {V = ℕ}
      (codes "a" ∷ [])
      (node (entry (codes "a") (node (entry (codes "b") (leaf 1) empty)) empty))
    ≡ ok (entry (codes "b") (leaf 1) empty)
unfolding sub_theta descend items flat_to_nested_dict add_all add_to_dict split split_from find put
sub_theta_test = refl
