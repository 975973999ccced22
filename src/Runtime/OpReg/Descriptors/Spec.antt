-- ===== src/Runtime/OpReg/Descriptors/Spec.antt =====
-- op_reg/base.py: what a kernel is specialized by, read back from the keys of its descriptors.
use shark_turbine.Common.{
  ℕ, ◌≡◌, refl, sym, ap, ◌∙◌, List, [], ◌∷◌, ◌++◌, Option, none, some, Name, codes, map,
  append_assoc, arith, ◌≢◌, All, append_cancel, false, nat_beq, nat_beq_iff,
}
use shark_turbine.Common.Decimal.{show_nat, show_nat-cons, is_digit-show_nat}
use shark_turbine.Runtime.OpReg.Descriptors.{Dims, show_list, show_dim}
use shark_turbine.Runtime.OpReg.Descriptors.Keys.{
  Code, Always, span_end, Code-show_nat, Code-show_dim, Code-show_list,
}

-- What a key tells of a descriptor: the value of an attribute or of an integer; of a tensor its
-- rank, its dtype and the dimensions that are specialized.
pub data Spec : Type 0 where
  attr_spec int_spec : Name → Spec
  tensor_spec_of : ℕ → Name → Dims → Spec
  list_spec : List ℕ → List Name → List Dims → Spec

abbrev pub Without : ℕ → Name → Type 0
Without c text = All (λ x. x ≢ c) text

-- The texts in the key hold none of the characters that end them there: no ">" in an attribute's,
-- and no "]" or "'" in a dtype's.
abbrev pub PlainSpec : Spec → Type 0
PlainSpec (attr_spec v) = Without 62 v
PlainSpec (int_spec v) = Without 62 v
PlainSpec (tensor_spec_of rank dtype dims) = Without 93 dtype
PlainSpec (list_spec ranks dtypes dims) = All (Without 39) dtypes

unfoldable pub quoted : Name → Name
quoted text = codes "'" ++ (text ++ codes "'")

unfoldable pub show_dims : Dims → Name
show_dims dims = show_list (map show_dim dims)

unfoldable pub spec_text : Spec → Name
spec_text (attr_spec v) = codes "attr<" ++ (v ++ codes ">")
spec_text (int_spec v) = codes "int<" ++ (v ++ codes ">")
spec_text (tensor_spec_of rank dtype dims) =
    codes "tensor["
    ++ (show_nat rank ++ (codes ":" ++ (dtype ++ (codes "]<" ++ (show_dims dims ++ codes ">")))))
spec_text (list_spec ranks dtypes dims) =
    codes "tensor["
    ++ (show_list (map show_nat ranks)
        ++ (codes ":"
            ++ (show_list (map quoted dtypes)
                ++ (codes "]<" ++ (show_list (map show_dims dims) ++ codes ">")))))

Code-quoted : Code Name (Without 39) quoted
unfolding quoted
Code-quoted = record {
  decode = λ a b r s ha hb _ _ e. span_end 39 a b r s ha hb (
      sym (append_assoc a (codes "'") r)
      ∙ append_cancel (codes "'") _ _ e
      ∙ append_assoc b (codes "'") s);
  starts = λ a _. (39, _, refl, λ k. ground arith, λ k. ground arith);
}

Code-show_dims : Code Dims (All Always) show_dims
unfolding show_dims
Code-show_dims = Code-show_list Code-show_dim

All-Always : {A : Type 0} (xs : List A) → All Always xs
All-Always [] = tt
All-Always (x ∷ xs) = (tt, All-Always xs)

All-All-Always : {A : Type 0} (xs : List (List A)) → All (All Always) xs
All-All-Always [] = tt
All-All-Always (x ∷ xs) = (All-Always x, All-All-Always xs)

-- The texts of a tensor and of a list, with what follows them, as one chain.
tensor_text :
    (m : ℕ) (t : Name) (xs : Dims) (r : Name)
    → spec_text (tensor_spec_of m t xs) ++ r
      ≡ codes "tensor[" ++ (show_nat m ++ (58 ∷ (t ++ (93 ∷ 60 ∷ (show_dims xs ++ (62 ∷ r))))))
unfolding spec_text
tensor_text m t xs r = ap (λ x. codes "tensor[" ++ x) (simp append_assoc refl)

list_text :
    (ms : List ℕ) (ts : List Name) (xs : List Dims) (r : Name)
    → spec_text (list_spec ms ts xs) ++ r
      ≡ codes "tensor["
        ++ (show_list (map show_nat ms)
            ++ (58
                ∷ (show_list (map quoted ts)
                    ++ (93 ∷ 60 ∷ (show_list (map show_dims xs) ++ (62 ∷ r))))))
unfolding spec_text
list_text ms ts xs r = ap (λ x. codes "tensor[" ++ x) (simp append_assoc refl)

tensor_decode :
    (m n : ℕ) (t u : Name) (xs ys : Dims) (r s : Name)
    → Without 93 t
    → Without 93 u
    → spec_text (tensor_spec_of m t xs) ++ r ≡ spec_text (tensor_spec_of n u ys) ++ s
    → (tensor_spec_of m t xs ≡ tensor_spec_of n u ys) × (r ≡ s)
tensor_decode m n t u xs ys r s ht hu e =
    let (rank, e1) = Code-show_nat.decode m n _ _ tt tt refl refl (
      append_cancel (codes "tensor[") _ _
        (sym (tensor_text m t xs r) ∙ e ∙ tensor_text n u ys s)) in
    let (dtype, e2) = span_end 93 t u _ _ ht hu (append_cancel (codes ":") _ _ e1) in
    let (dims, e3) =
      Code-show_dims.decode xs ys _ _ (All-Always xs) (All-Always ys) refl refl
        (append_cancel (codes "<") _ _ e2) in
    (cc, append_cancel (codes ">") _ _ e3)

list_decode :
    (ms ns : List ℕ) (ts us : List Name) (xs ys : List Dims) (r s : Name)
    → All (Without 39) ts
    → All (Without 39) us
    → spec_text (list_spec ms ts xs) ++ r ≡ spec_text (list_spec ns us ys) ++ s
    → (list_spec ms ts xs ≡ list_spec ns us ys) × (r ≡ s)
list_decode ms ns ts us xs ys r s ht hu e =
    let (ranks, e1) =
      (Code-show_list Code-show_nat).decode ms ns _ _ (All-Always ms) (All-Always ns) refl refl (
        append_cancel (codes "tensor[") _ _
          (sym (list_text ms ts xs r) ∙ e ∙ list_text ns us ys s)) in
    let (dtypes, e2) =
      (Code-show_list Code-quoted).decode ts us _ _ ht hu refl refl
        (append_cancel (codes ":") _ _ e1) in
    let (dims, e3) =
      (Code-show_list Code-show_dims).decode xs ys _ _ (All-All-Always xs) (All-All-Always ys) refl
        refl (append_cancel (codes "]<") _ _ e2) in
    (cc, append_cancel (codes ">") _ _ e3)

value_decode :
    (start v w r s : Name)
    → Without 62 v
    → Without 62 w
    → (start ++ (v ++ codes ">")) ++ r ≡ (start ++ (w ++ codes ">")) ++ s
    → (v ≡ w) × (r ≡ s)
value_decode start v w r s hv hw e = span_end 62 v w r s hv hw (
    sym (append_assoc v (codes ">") r)
    ∙ append_cancel start _ _
        (sym (append_assoc start (v ++ codes ">") r) ∙ e ∙ append_assoc start (w ++ codes ">") s)
    ∙ append_assoc w (codes ">") s)

tensor_ne_list :
    (m : ℕ) (t : Name) (xs : Dims) (ns : List ℕ) (us : List Name) (ys : List Dims) (r s : Name)
    → spec_text (tensor_spec_of m t xs) ++ r ≢ spec_text (list_spec ns us ys) ++ s
unfolding show_list
tensor_ne_list m t xs ns us ys r s e =
    let (c, rest, f) = show_nat-cons m in
    let digit = (rw f at (is_digit-show_nat m)).0 in
    let g =
      append_cancel (codes "tensor[") _ _ (sym (tensor_text m t xs r) ∙ e ∙ list_text ns us ys s) in
    let same : c ≡ 91 = (let h = (rw f at g) in cc) in ground arith

abbrev first : Name → ℕ
first [] = 0
first (c ∷ text) = c

first_ne : (xs ys : Name) → nat_beq (first xs) (first ys) ≡ false → xs ≢ ys
first_ne xs ys d e = let same = (nat_beq_iff (first xs) (first ys)).1 (ap first e) in cc

spec_text-decode :
    (a b : Spec) (r s : Name)
    → PlainSpec a
    → PlainSpec b
    → spec_text a ++ r ≡ spec_text b ++ s
    → (a ≡ b) × (r ≡ s)
unfolding spec_text
spec_text-decode (attr_spec v) (attr_spec w) r s ha hb e =
    let (p, q) = value_decode (codes "attr<") v w r s ha hb e in (ap attr_spec p, q)
spec_text-decode (int_spec v) (int_spec w) r s ha hb e =
    let (p, q) = value_decode (codes "int<") v w r s ha hb e in (ap int_spec p, q)
spec_text-decode (tensor_spec_of m t xs) (tensor_spec_of n u ys) r s ha hb e =
    tensor_decode m n t u xs ys r s ha hb e
spec_text-decode (list_spec ms ts xs) (list_spec ns us ys) r s ha hb e =
    list_decode ms ns ts us xs ys r s ha hb e
spec_text-decode (tensor_spec_of m t xs) (list_spec ns us ys) r s ha hb e =
    absurd (tensor_ne_list m t xs ns us ys r s e)
spec_text-decode (list_spec ms ts xs) (tensor_spec_of n u ys) r s ha hb e =
    absurd (tensor_ne_list n u ys ms ts xs s r (sym e))
spec_text-decode (attr_spec v) (int_spec w) r s ha hb e = absurd (first_ne _ _ refl e)
spec_text-decode (attr_spec v) (tensor_spec_of n u ys) r s ha hb e = absurd (first_ne _ _ refl e)
spec_text-decode (attr_spec v) (list_spec ns us ys) r s ha hb e = absurd (first_ne _ _ refl e)
spec_text-decode (int_spec v) (attr_spec w) r s ha hb e = absurd (first_ne _ _ refl e)
spec_text-decode (int_spec v) (tensor_spec_of n u ys) r s ha hb e = absurd (first_ne _ _ refl e)
spec_text-decode (int_spec v) (list_spec ns us ys) r s ha hb e = absurd (first_ne _ _ refl e)
spec_text-decode (tensor_spec_of m t xs) (attr_spec w) r s ha hb e = absurd (first_ne _ _ refl e)
spec_text-decode (tensor_spec_of m t xs) (int_spec w) r s ha hb e = absurd (first_ne _ _ refl e)
spec_text-decode (list_spec ms ts xs) (attr_spec w) r s ha hb e = absurd (first_ne _ _ refl e)
spec_text-decode (list_spec ms ts xs) (int_spec w) r s ha hb e = absurd (first_ne _ _ refl e)

-- A slot of a selection that may not be set.
abbrev pub PlainSlot : Option Spec → Type 0
PlainSlot none = Unit
PlainSlot (some s) = PlainSpec s

unfoldable pub slot_text : Option Spec → Name
slot_text none = codes "None"
slot_text (some s) = spec_text s

spec_text-starts : (s : Spec) → (c : ℕ) × (t : Name) × (spec_text s ≡ c ∷ t) × (c ≢ 93) × (c ≢ 41)
unfolding spec_text
spec_text-starts (attr_spec v) = (97, _, refl, λ k. ground arith, λ k. ground arith)
spec_text-starts (int_spec v) = (105, _, refl, λ k. ground arith, λ k. ground arith)
spec_text-starts (tensor_spec_of m t xs) = (116, _, refl, λ k. ground arith, λ k. ground arith)
spec_text-starts (list_spec ms ts xs) = (116, _, refl, λ k. ground arith, λ k. ground arith)

none_ne : (s : Spec) (r t : Name) → codes "None" ++ r ≢ spec_text s ++ t
unfolding spec_text
none_ne (attr_spec v) r t e = absurd (first_ne _ _ refl e)
none_ne (int_spec v) r t e = absurd (first_ne _ _ refl e)
none_ne (tensor_spec_of m u xs) r t e = absurd (first_ne _ _ refl e)
none_ne (list_spec ms ts xs) r t e = absurd (first_ne _ _ refl e)

slot_text-decode :
    (a b : Option Spec) (r s : Name)
    → PlainSlot a
    → PlainSlot b
    → slot_text a ++ r ≡ slot_text b ++ s
    → (a ≡ b) × (r ≡ s)
unfolding slot_text
slot_text-decode none none r s ha hb e = (refl, append_cancel (codes "None") r s e)
slot_text-decode none (some b) r s ha hb e = absurd (none_ne b r s e)
slot_text-decode (some a) none r s ha hb e = absurd (none_ne a s r (sym e))
slot_text-decode (some a) (some b) r s ha hb e =
    let (p, q) = spec_text-decode a b r s ha hb e in (ap some p, q)

slot_text-starts :
    (a : Option Spec) → (c : ℕ) × (t : Name) × (slot_text a ≡ c ∷ t) × (c ≢ 93) × (c ≢ 41)
unfolding slot_text
slot_text-starts none = (78, _, refl, λ k. ground arith, λ k. ground arith)
slot_text-starts (some s) = spec_text-starts s

pub Code-slot_text : Code (Option Spec) PlainSlot slot_text
Code-slot_text = record {
  decode = λ a b r s ha hb _ _. slot_text-decode a b r s ha hb;
  starts = λ a _. slot_text-starts a;
}

pub Code-spec_text : Code Spec PlainSpec spec_text
Code-spec_text = record {
  decode = λ a b r s ha hb _ _. spec_text-decode a b r s ha hb;
  starts = λ a _. spec_text-starts a;
}
