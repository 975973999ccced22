-- ===== src/Runtime/OpReg/Descriptors/Keys.antt =====
-- op_reg/base.py: what the text of a specialization key tells.
use shark_turbine.Common.{
  ℕ, ◌≡◌, refl, sym, ap, ◌∙◌, true, false, List, [], ◌∷◌, ◌++◌, Option, none, some, Name, codes,
  map, append_assoc, arith, ◌≢◌, All, append_cancel,
}
use shark_turbine.Common.Decimal.{
  show_nat, show_nat-injective, is_digit-show_nat, show_nat-cons, is_digit,
}
use shark_turbine.Runtime.OpReg.Descriptors.{join, show_list, show_dim}

-- The text ends, or goes on with a character that is no digit.
abbrev pub Stops : Name → Type 0
Stops [] = Unit
Stops (c ∷ text) = is_digit c ≡ false

-- Texts of elements that are known from what begins with them.
pub record Code (A : Type 0) (D : A → Type 0) (f : A → Name) : Type 0 where
  pub decode :
      (a b : A) (r s : Name)
      → D a
      → D b
      → Stops r
      → Stops s
      → f a ++ r ≡ f b ++ s
      → (a ≡ b) × (r ≡ s)
  -- No element begins like the end of a list or of a call.
  pub starts : (a : A) → D a → (c : ℕ) × (t : Name) × (f a ≡ c ∷ t) × (c ≢ 93) × (c ≢ 41)

-- Digits end where the text stops.
digits_end :
    (xs ys r s : Name)
    → All (λ c. is_digit c ≡ true) xs
    → All (λ c. is_digit c ≡ true) ys
    → Stops r
    → Stops s
    → xs ++ r ≡ ys ++ s
    → (xs ≡ ys) × (r ≡ s)
digits_end [] [] r s hx hy hr hs e = (refl, e)
digits_end [] (y ∷ ys) [] s hx hy hr hs e = absurd (cc)
digits_end [] (y ∷ ys) (c ∷ r) s hx hy hr hs e =
    absurd (let same : c ≡ y = cc in let d = ap is_digit same in let d1 = hy.0 in cc)
digits_end (x ∷ xs) [] r [] hx hy hr hs e = absurd (cc)
digits_end (x ∷ xs) [] r (c ∷ s) hx hy hr hs e =
    absurd (let same : x ≡ c = cc in let d = ap is_digit same in let d1 = hx.0 in cc)
digits_end (x ∷ xs) (y ∷ ys) r s hx hy hr hs e =
    let (p, q) = digits_end xs ys r s hx.1 hy.1 hr hs (cc) in (cc, q)

abbrev pub Always {ℓ} : {A : Type ℓ} → A → Type 0
Always a = Unit

number_starts :
    (text : Name)
    → All (λ c. is_digit c ≡ true) text
    → (c : ℕ) × (t : Name) × (text ≡ c ∷ t)
    → (c : ℕ) × (t : Name) × (text ≡ c ∷ t) × (c ≢ 93) × (c ≢ 41)
number_starts text h (c, t, e) =
    let d = (rw e at h).0 in (c, t, e, λ k. ground arith, λ k. ground arith)

pub Code-show_nat : Code ℕ Always show_nat
Code-show_nat = record {
  decode = λ a b r s _ _ hr hs e.
      let (p, q) =
        digits_end (show_nat a) (show_nat b) r s (is_digit-show_nat a) (is_digit-show_nat b) hr hs
          e in
      (show_nat-injective a b p, q);
  starts = λ a _. number_starts (show_nat a) (is_digit-show_nat a) (show_nat-cons a);
}

-- A text behind which another comes that does not occur in it ends at that character.
pub span_end :
    (c : ℕ) (xs ys r s : Name)
    → All (λ x. x ≢ c) xs
    → All (λ x. x ≢ c) ys
    → xs ++ c ∷ r ≡ ys ++ c ∷ s
    → (xs ≡ ys) × (r ≡ s)
span_end c [] [] r s hx hy e = (refl, cc)
span_end c [] (y ∷ ys) r s hx hy e = absurd (hy.0 (cc))
span_end c (x ∷ xs) [] r s hx hy e = absurd (hx.0 (cc))
span_end c (x ∷ xs) (y ∷ ys) r s hx hy e =
    let (p, q) = span_end c xs ys r s hx.1 hy.1 (cc) in (cc, q)

module _ {A : Type 0} {D : A → Type 0} {f : A → Name} (code : Code A D f) where
  module _ (a close : ℕ) (sep : Name) (ends : is_digit close ≡ false)
      (separates : is_digit a ≡ false) (differ : close ≢ a)
      (closes : (c : ℕ) → c ≢ 93 → c ≢ 41 → close ≢ c) where
    abbrev pub text_of : List A → Name → Name
    text_of xs r = join (a ∷ sep) (map f xs) ++ close ∷ r

    text_of_cons :
        (x y : A) (ys : List A) (r : Name)
        → text_of (x ∷ y ∷ ys) r ≡ f x ++ (a ∷ (sep ++ text_of (y ∷ ys) r))
    unfolding join
    text_of_cons x y ys r = rw (append_assoc, append_assoc) refl

    not_closed : (y : A) (ys : List A) (r s : Name) → D y → close ∷ r ≢ text_of (y ∷ ys) s
    unfolding join
    not_closed y [] r s h e =
        let (c, t, g, p, q) = code.starts y h in closes c p q (let k = (rw g at e) in cc)
    not_closed y (z ∷ ys) r s h e =
        let (c, t, g, p, q) = code.starts y h in closes c p q (let k = (rw g at e) in cc)

    pub join-decode :
        (xs ys : List A) (r s : Name)
        → All D xs
        → All D ys
        → text_of xs r ≡ text_of ys s
        → (xs ≡ ys) × (r ≡ s)
    unfolding join
    join-decode [] [] r s hx hy e = let k : close ∷ r ≡ close ∷ s = e in (refl, cc)
    join-decode [] (y ∷ ys) r s hx hy e = absurd (not_closed y ys r s hy.0 e)
    join-decode (x ∷ xs) [] r s hx hy e = absurd (not_closed x xs s r hx.0 (sym e))
    join-decode (x ∷ []) (y ∷ []) r s hx hy e =
        let (p, q) = code.decode x y _ _ hx.0 hy.0 ends ends e in (ap (λ v. v ∷ []) p, cc)
    join-decode (x ∷ []) (y ∷ z ∷ ys) r s hx hy e =
        let (p, q) =
          code.decode x y (close ∷ r) _ hx.0 hy.0 ends separates (e ∙ text_of_cons y z ys s) in
        absurd (differ (cc))
    join-decode (x ∷ w ∷ xs) (y ∷ []) r s hx hy e =
        let (p, q) =
          code.decode y x (close ∷ s) _ hy.0 hx.0 ends separates (sym e ∙ text_of_cons x w xs r) in
        absurd (differ (cc))
    join-decode (x ∷ w ∷ xs) (y ∷ z ∷ ys) r s hx hy e =
        let (p, q) =
          code.decode x y _ _ hx.0 hy.0 separates separates
            (sym (text_of_cons x w xs r) ∙ e ∙ text_of_cons y z ys s) in
        let (p1, q1) =
          join-decode (w ∷ xs) (z ∷ ys) r s hx.1 hy.1 (append_cancel (a ∷ sep) _ _ q) in
        (cc, q1)

  bracket : (c : ℕ) → c ≢ 93 → c ≢ 41 → 93 ≢ c
  bracket c p q e = p (sym e)

  list_text :
      (xs : List A) (r : Name)
      → show_list (map f xs) ++ r ≡ codes "[" ++ (join (codes ", ") (map f xs) ++ 93 ∷ r)
  unfolding show_list
  list_text xs r =
      ap (λ t. codes "[" ++ t) (append_assoc (join (codes ", ") (map f xs)) (codes "]") r)

  pub Code-show_list : Code (List A) (All D) (λ xs. show_list (map f xs))
  unfolding show_list
  Code-show_list = record {
    decode = λ xs ys r s hx hy _ _ e.
        join-decode 44 93 (codes " ") refl refl (λ k. ground arith) bracket xs ys r s hx hy
          (append_cancel (codes "[") _ _ (sym (list_text xs r) ∙ e ∙ list_text ys s));
    starts = λ xs _. (91, _, refl, λ k. ground arith, λ k. ground arith);
  }

none_ne_nat : (n : ℕ) (r s : Name) → codes "None" ++ r ≢ show_nat n ++ s
none_ne_nat n r s e =
    let (c, t, f) = show_nat-cons n in
    let digit = (rw f at (is_digit-show_nat n)).0 in
    let same : 78 ≡ c = (let g = (rw f at e) in cc) in ground arith

show_dim-decode :
    (a b : Option ℕ) (r s : Name)
    → Stops r
    → Stops s
    → show_dim a ++ r ≡ show_dim b ++ s
    → (a ≡ b) × (r ≡ s)
unfolding show_dim
show_dim-decode none none r s hr hs e = (refl, append_cancel (codes "None") r s e)
show_dim-decode none (some n) r s hr hs e = absurd (none_ne_nat n r s e)
show_dim-decode (some n) none r s hr hs e = absurd (none_ne_nat n s r (sym e))
show_dim-decode (some m) (some n) r s hr hs e =
    let (p, q) = Code-show_nat.decode m n r s tt tt hr hs e in (ap some p, q)

show_dim-starts : (a : Option ℕ) → (c : ℕ) × (t : Name) × (show_dim a ≡ c ∷ t) × (c ≢ 93) × (c ≢ 41)
unfolding show_dim
show_dim-starts none = (78, _, refl, λ k. ground arith, λ k. ground arith)
show_dim-starts (some n) = Code-show_nat.starts n tt

pub Code-show_dim : Code (Option ℕ) Always show_dim
Code-show_dim = record {
  decode = λ a b r s _ _. show_dim-decode a b r s;
  starts = λ a _. show_dim-starts a;
}
