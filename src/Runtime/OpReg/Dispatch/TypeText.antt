-- ===== src/Runtime/OpReg/Dispatch/TypeText.antt =====
-- op_reg/base.py: the text of a tensor type, dimension by dimension.
use shark_turbine.Common.{
  ℕ, ◌≡◌, refl, ap, sym, ◌∙◌, [], ◌∷◌, ◌++◌, append_assoc, Option, none, some, Name, codes,
}
use shark_turbine.Common.Decimal.{show_nat, show_nat-cons}
use shark_turbine.Runtime.OpReg.Descriptors.{Dims, tensor_spec, dim_asm, join}

-- A dimension in a tensor type: its number where it is specialized.
abbrev pub dim_text : Option ℕ → Name
dim_text none = codes "?"
dim_text (some n) = show_nat n

-- The inside of a tensor type: each dimension with an "x" behind it, and the element type.
abbrev pub shape_text : Dims → Name → Name
shape_text [] element = element
shape_text (d ∷ ds) element = dim_text d ++ (codes "x" ++ shape_text ds element)

abbrev dim_asm_of : Option ℕ → Name
dim_asm_of d = elim d [ none ↦ codes "?" | some n ↦ show_nat n ]

dim_asm_of_lem : (d : Option ℕ) → dim_asm_of d ≡ dim_text d
dim_asm_of_lem none = refl
dim_asm_of_lem (some n) = refl

dim_asm-append :
    (d : Option ℕ) (ds : Dims) (element : Name)
    → dim_asm (d ∷ ds) ++ (codes "x" ++ element) ≡ shape_text (d ∷ ds) element
unfolding dim_asm join
dim_asm-append d [] element = ap (λ t. t ++ (codes "x" ++ element)) (dim_asm_of_lem d)
dim_asm-append d (e ∷ ds) element =
    append_assoc (dim_asm_of d) (codes "x" ++ dim_asm (e ∷ ds)) (codes "x" ++ element)
    ∙ ap (λ t. t ++ (codes "x" ++ (dim_asm (e ∷ ds) ++ (codes "x" ++ element)))) (dim_asm_of_lem d)
    ∙ ap (λ t. dim_text d ++ (codes "x" ++ t)) (dim_asm-append e ds element)

dim_text-cons : (d : Option ℕ) → (c : ℕ) × (rest : Name) × (dim_asm_of d ≡ c ∷ rest)
dim_text-cons none = (63, [], refl)
dim_text-cons (some n) = let (c, rest, e) = show_nat-cons n in (c, rest, e)

dim_asm-cons : (d : Option ℕ) (ds : Dims) → (c : ℕ) × (rest : Name) × (dim_asm (d ∷ ds) ≡ c ∷ rest)
unfolding dim_asm join
dim_asm-cons d [] = dim_text-cons d
dim_asm-cons d (e ∷ ds) =
    let (c, rest, first) = dim_text-cons d in
    (
      c,
      rest ++ (codes "x" ++ dim_asm (e ∷ ds)),
      ap (λ t. t ++ (codes "x" ++ dim_asm (e ∷ ds))) first,
    )

pub tensor_spec_lem :
    (dims : Dims) (element : Name)
    → tensor_spec (dim_asm dims) element ≡ codes "tensor<" ++ (shape_text dims element ++ codes ">")
unfolding tensor_spec
tensor_spec_lem [] element = unfold dim_asm join in refl
tensor_spec_lem (d ∷ ds) element =
    let (c, rest, e) = dim_asm-cons d ds in
    ap (λ t. tensor_spec t element) e
    ∙ ap (λ t. codes "tensor<" ++ ((t ++ (codes "x" ++ element)) ++ codes ">")) (sym e)
    ∙ ap (λ t. codes "tensor<" ++ (t ++ codes ">")) (dim_asm-append d ds element)
