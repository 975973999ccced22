-- ===== src/Runtime/OpReg/Signature/Unique.antt =====
-- op_reg/base.py: signatures and their parts, and the names that operators are defined under.
use shark_turbine.Common.{
  ℕ, zero, suc, ◌≤◌, ◌<◌, ◌≡◌, refl, ap, sym, true, ◌||◌, [], ◌∷◌, ◌++◌, some, Name, length,
  length-append, nat_key, list_key, pair_key, arith, inl, inr, Bool-cases, ltb, subst, All, eq_self,
  eq_ne, ◌≢◌,
}
use shark_turbine.Common.Exc.{ok}
use shark_turbine.Runtime.OpReg.Signature.{
  open_paren, newline, span_to, match_line, match_args, match_signature, split_signature, unique,
  begins, has_unique, replace_unique,
}

-- No character of the text is `c`.
abbrev pub Without : ℕ → Name → Type 0
Without c text = All (λ x. x ≢ c) text

span_to-Without : (c : ℕ) (xs ys : Name) → Without c xs → span_to c (xs ++ c ∷ ys) ≡ (xs, c ∷ ys)
unfolding span_to
span_to-Without c [] ys h = rw (eq_self c)
span_to-Without c (x ∷ xs) ys h = rw (eq_ne x c h.0, span_to-Without c xs ys h.1)

span_to_all : (c : ℕ) (xs : Name) → Without c xs → span_to c xs ≡ (xs, [])
unfolding span_to
span_to_all c [] h = refl
span_to_all c (x ∷ xs) h = rw (eq_ne x c h.0, span_to_all c xs h.1)

match_args_all :
    (p a : ℕ) (args : Name)
    → Without newline (a ∷ args)
    → match_args (p ∷ a ∷ args) ≡ some (p ∷ a ∷ args)
unfolding match_args match_line
match_args_all p a args h = rw (match_args, span_to_all newline (a ∷ args) h)

match_signature_all :
    (p c a : ℕ) (name args : Name)
    → Without newline (a ∷ args)
    → match_signature (c ∷ name) (p ∷ a ∷ args) ≡ ok (c ∷ name, p ∷ a ∷ args)
unfolding match_signature
match_signature_all p c a name args h = rw (match_signature, match_args_all p a args h)

-- A nonempty name without an opening parenthesis, followed by one and by a nonempty text without
-- newlines, is split into that name and the rest.
pub split_signature-append :
    (c a : ℕ) (name args : Name)
    → Without open_paren (c ∷ name)
    → Without newline (a ∷ args)
    → split_signature ((c ∷ name) ++ open_paren ∷ a ∷ args) ≡ ok (c ∷ name, open_paren ∷ a ∷ args)
unfolding split_signature
split_signature-append c a name args hn ha =
    rw (split_signature, span_to-Without open_paren (c ∷ name) (a ∷ args) hn)
      (match_signature_all open_paren c a name args ha)

-- Replacing.
replace-le :
    (k : ℕ) (a b text : Name)
    → length a ≤ length b
    → length (replace_unique k a text) ≤ length (replace_unique k b text)
unfolding replace_unique
replace-le k a b [] h = omega arith
replace-le (suc k) a b (c ∷ text) h = replace-le k a b text h
replace-le zero a b (c ∷ text) h = elim (Bool-cases (begins (c ∷ text) unique)) [
  | inl e ↦ rw e (
      omega (
        arith,
        replace-le 7 a b text h,
        length-append a (replace_unique 7 a text),
        length-append b (replace_unique 7 b text),
      ))
  | inr e ↦ rw e (omega (arith, replace-le 0 a b text h))
]

replace-lt :
    (a b text : Name)
    → has_unique text ≡ true
    → length a < length b
    → length (replace_unique 0 a text) < length (replace_unique 0 b text)
unfolding replace_unique has_unique
replace-lt a b [] o h = absurd (cc)
replace-lt a b (c ∷ text) o h = elim (Bool-cases (begins (c ∷ text) unique)) [
  | inl e ↦ rw e (
      omega (
        arith,
        replace-le 7 a b text (omega arith),
        length-append a (replace_unique 7 a text),
        length-append b (replace_unique 7 b text),
      ))
  | inr e ↦
      rw e (omega (arith, replace-lt a b text (subst (λ t. (t || has_unique text) ≡ true) e o) h))
]

append_parts : (a b xs ys : Name) → length a ≡ length b → a ++ xs ≡ b ++ ys → a ≡ b
append_parts [] [] xs ys l h = refl
append_parts [] (y ∷ b) xs ys l h = absurd (omega arith)
append_parts (x ∷ a) [] xs ys l h = absurd (omega arith)
append_parts (x ∷ a) (y ∷ b) xs ys l h = let rest = append_parts a b xs ys (omega arith) (cc) in cc

replace_same :
    (a b text : Name)
    → has_unique text ≡ true
    → length a ≡ length b
    → replace_unique 0 a text ≡ replace_unique 0 b text
    → a ≡ b
unfolding replace_unique has_unique
replace_same a b [] o l h = absurd (cc)
replace_same a b (c ∷ text) o l h = elim (Bool-cases (begins (c ∷ text) unique)) [
  | inl e ↦ append_parts a b _ _ l (rw e at h)
  | inr e ↦ replace_same a b text (rw e at o) l (let g = (rw e at h) in cc)
]

unique_lt :
    (a b text : Name)
    → has_unique text ≡ true
    → length a < length b
    → replace_unique 0 a text ≡ replace_unique 0 b text
    → length a < length a
unique_lt a b text o l h =
    let shorter = replace-lt a b text o l in let same = ap length h in absurd (omega arith)

-- Different texts in place of "@UNIQUE@" make different names.
pub replace-injective :
    (a b text : Name)
    → has_unique text ≡ true
    → replace_unique 0 a text ≡ replace_unique 0 b text
    → a ≡ b
replace-injective a b text o h = elim (Bool-cases (ltb (length a) (length b))) [
  | inl lt ↦ let no = unique_lt a b text o (ground arith) h in absurd (omega arith)
  | inr ge ↦ elim (Bool-cases (ltb (length b) (length a))) [
    | inl lt ↦ let no = unique_lt b a text o (ground arith) (sym h) in absurd (omega arith)
    | inr le ↦ replace_same a b text o (ground arith) h
  ]
]
