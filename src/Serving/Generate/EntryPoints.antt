-- ===== src/Serving/Generate/EntryPoints.antt =====
-- The tables of compiled functions that GenerateServiceV1's constructor builds.
use shark_turbine.Common.{
  ℕ, ◌≡◌, refl, ap, inl, inr, false, List, [], ◌∷◌, ◌++◌, some, Name, codes, arith, All, Bool-cases,
  subst, list_key, list_beq_iff, ◌==◌, nat_key, nat_beq, nat_beq_iff,
}
use shark_turbine.Common.Exc.{Result, ok, err, Result-cases}
use shark_turbine.Common.Dict.{Dict, lookup, insert, has_key, lookup-insert}
use shark_turbine.Common.Decimal.{show_nat}
use shark_turbine.Serving.Generate.{Service, entry_points, new_service}

module _ {F : Type 0} (function : Name → Result F) where
  -- The table has the function that the symbol of this batch size names.
  abbrev pub HasEntry : Name → Dict ℕ F → ℕ → Type 0
  HasEntry stem table bs =
      (f : F) × (lookup bs table ≡ some f) × (function (stem ++ show_nat bs) ≡ ok f)

  -- What building a table from `table` may do.
  abbrev Built : Name → List ℕ → Dict ℕ F → Result (Dict ℕ F) → Type 0
  Built stem sizes table (err e) = Unit
  Built stem sizes table (ok t) =
      ((k : ℕ) (f : F) → lookup k table ≡ some f → lookup k t ≡ some f)
      × All (HasEntry stem t) sizes

  keeps-insert :
      (bs k : ℕ) (f g : F) (table : Dict ℕ F)
      → has_key bs table ≡ false
      → lookup k table ≡ some g
      → lookup k (insert bs f table) ≡ some g
  keeps-insert bs k f g table new old = rw lookup-insert (elim (Bool-cases (nat_beq k bs)) [
    | inl same ↦
        let e = (nat_beq_iff k bs).0 same in absurd (ground (arith, ap (λ j. lookup j table) e))
    | inr other ↦ rw other old
  ])

  Built-next :
      (stem : Name) (bs : ℕ) (sizes : List ℕ) (f : F) (table : Dict ℕ F) (r : Result (Dict ℕ F))
      → has_key bs table ≡ false
      → function (stem ++ show_nat bs) ≡ ok f
      → Built stem sizes (insert bs f table) r
      → Built stem (bs ∷ sizes) table r
  Built-next stem bs sizes f table (err e) new found h = tt
  Built-next stem bs sizes f table (ok t) new found (kept, entries) = (
    λ k g old. kept k g (keeps-insert bs k f g table new old),
    ((f, kept bs f (rw lookup-insert (ground arith)), found), entries),
  )

  entry_points-Built :
      (stem : Name) (sizes : List ℕ) (table : Dict ℕ F)
      → Built stem sizes table (entry_points function stem sizes table)
  unfolding entry_points
  entry_points-Built stem [] table = (λ k f h. h, tt)
  entry_points-Built stem (bs ∷ sizes) table = elim (Bool-cases (has_key bs table)) [
    | inl old ↦ rw (entry_points, old) tt
    | inr new ↦ elim (Result-cases (function (stem ++ show_nat bs))) [
      | inl (e, failed) ↦ rw (entry_points, new, failed) tt
      | inr (f, found) ↦
          rw (entry_points, new, found)
            (Built-next stem bs sizes f table _ new found
              (entry_points-Built stem sizes (insert bs f table)))
    ]
  ]

  entries :
      (stem : Name) (sizes : List ℕ) (t : Dict ℕ F)
      → entry_points function stem sizes [] ≡ ok t
      → All (HasEntry stem t) sizes
  entries stem sizes t e = (subst (Built stem sizes []) e (entry_points-Built stem sizes [])).1

  -- What the constructor's result promises.
  abbrev pub Serves : ℕ → List ℕ → List ℕ → Result (Service F) → Type 0
  Serves stride prefill_sizes decode_sizes (err e) = Unit
  Serves stride prefill_sizes decode_sizes (ok service) =
      (service.block_pos_stride ≡ stride)
      × (service.batch_sizes ≡ prefill_sizes)
      × (decode_sizes ≡ prefill_sizes)
      × All (HasEntry (codes "prefill_bs") service.prefill_functions) service.batch_sizes
      × All (HasEntry (codes "decode_bs") service.decode_functions) service.batch_sizes

  -- A service that was constructed has, for each of its batch sizes, the prefill function and the
  -- decode function of that size, each found by its own symbol name.
  pub new_service-Serves :
      (stride : ℕ) (prefill_sizes decode_sizes : List ℕ)
      → Serves stride prefill_sizes decode_sizes
          (new_service function stride prefill_sizes decode_sizes)
  unfolding new_service
  new_service-Serves stride prefill_sizes decode_sizes =
      let prefill = entry_points function (codes "prefill_bs") prefill_sizes [] in
      let decode = entry_points function (codes "decode_bs") prefill_sizes [] in
      elim (Bool-cases (decode_sizes == prefill_sizes)) [
        | inr differ ↦ rw (new_service, differ) tt
        | inl same ↦ elim (Result-cases prefill) [
          | inl (e, p) ↦ rw (new_service, same, p) tt
          | inr (pt, p) ↦ elim (Result-cases decode) [
            | inl (e, d) ↦ rw (new_service, same, p, d) tt
            | inr (dt, d) ↦
                rw (new_service, same, p, d)
                  (
                    refl,
                    refl,
                    (list_beq_iff decode_sizes prefill_sizes).0 same,
                    entries (codes "prefill_bs") prefill_sizes pt p,
                    entries (codes "decode_bs") prefill_sizes dt d,
                  )
          ]
        ]
      ]
