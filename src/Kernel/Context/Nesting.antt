-- ===== src/Kernel/Context/Nesting.antt =====
-- _support/context.py: well nested pushes and pops.
use shark_turbine.Common.{
  ◌≡◌, refl, ap, sym, ◌∙◌, true, List, [], ◌∷◌, ◌++◌, some, Name, list_key, nat_key, ◌==◌,
  get_last?, if◌then◌else◌, arith, pop-append_singleton, Bool-cases, inl, inr, Option-cases,
  eq_self, eq_ne, length, ◌≢◌, length-append,
}
use shark_turbine.Common.Exc.{Result, Exec, ok, err, after}
use shark_turbine.Common.Dict.{lookup, insert, lookup-insert}
use shark_turbine.Kernel.Context.{Contexts, Tls, stack_of, push, is_expected, pop_context, current}

-- Pushes and pops as `with` statements nest them: an instance, what runs while it is current, and
-- what comes behind.
pub data Nest (T A : Type 0) : Type 0 where
  done : Nest T A
  with_ : T → A → Nest T A → Nest T A → Nest T A

module _ (contexts : Contexts) where
  open contexts use {ContextType, Instance, idname, isinstance, instance_key}

  abbrev pub and_then :
      {A : Type 0}
      → Result A × Tls contexts
      → Exec (Tls contexts) (Unit {0})
      → Result (Unit {0}) × Tls contexts
  and_then (err e, tls) k = (err e, tls)
  and_then (ok _, tls) k = k tls

  -- Each block pushes its instance, runs, and pops it as the expected one.
  unfoldable pub run_nest : Nest ContextType Instance → Exec (Tls contexts) (Unit {0})
  run_nest done tls = (ok tt, tls)
  run_nest (with_ t a body rest) tls = and_then (push contexts t a tls) λ tls.
      and_then (run_nest body tls)
        λ tls. and_then (pop_context contexts t (some a) tls) (run_nest rest)

  abbrev pub Instances : Nest ContextType Instance → Type 0
  Instances done = Unit
  Instances (with_ t a body rest) = (isinstance a t ≡ true) × (Instances body × Instances rest)

  stack_of-insert :
      (k j : Name) (stack : List Instance) (tls : Tls contexts)
      → stack_of contexts j (insert k stack tls)
        ≡ (if j == k then stack else stack_of contexts j tls)
  unfolding stack_of
  stack_of-insert k j stack tls = elim (Bool-cases (j == k)) [
    | inl e ↦ rw (stack_of, lookup-insert k j stack tls, e) refl
    | inr e ↦ rw (stack_of, lookup-insert k j stack tls, e) refl
  ]

  -- A stack that is not empty is there.
  stack_of-some :
      (k : Name) (stack : List Instance) (tls : Tls contexts)
      → length (stack_of contexts k tls) ≢ 0
      → stack_of contexts k tls ≡ stack
      → lookup k tls ≡ some stack
  unfolding stack_of
  stack_of-some k stack tls ne h = elim (Option-cases (lookup k tls)) [
    | inl e ↦ absurd (ne (rw (stack_of, e) refl))
    | inr (s, e) ↦ e ∙ ap some (sym (rw (stack_of, e) refl) ∙ h)
  ]

  stack_of-top :
      (k : Name) (stack : List Instance) (tls : Tls contexts)
      → stack_of contexts k (insert k stack tls) ≡ stack
  stack_of-top k stack tls = stack_of-insert k k stack tls ∙ rw (eq_self k) refl

  nonempty :
      (k : Name) (stack : List Instance) (a : Instance) (tls : Tls contexts)
      → stack_of contexts k tls ≡ stack ++ a ∷ []
      → length (stack_of contexts k tls) ≢ 0
  nonempty k stack a tls h e = omega (arith, sym (ap length h) ∙ e, length-append stack (a ∷ []))

  -- The stacks after a pop are those before the push, when those in between were kept.
  restored :
      (k key : Name) (before stack : List Instance) (tls tls2 : Tls contexts)
      → stack_of contexts key tls ≡ before
      → ((k : Name) → stack_of contexts k tls2 ≡ stack_of contexts k (insert key stack tls))
      → stack_of contexts k (insert key before tls2) ≡ stack_of contexts k tls
  restored k key before stack tls tls2 h same = elim (Bool-cases (k == key)) [
    | inl e ↦
        stack_of-insert key k before tls2
        ∙ rw e refl
        ∙ sym h
        ∙ ap (λ n. stack_of contexts n tls) (sym ((list_key.same_iff k key).0 e))
    | inr e ↦
        stack_of-insert key k before tls2
        ∙ rw e refl
        ∙ same k
        ∙ stack_of-insert key k stack tls
        ∙ rw e refl
  ]

  -- What a pop does when the stack ends in the expected instance.
  pop_context-stack :
      (t : ContextType) (a : Instance) (stack : List Instance) (tls : Tls contexts)
      → lookup (idname t) tls ≡ some (stack ++ a ∷ [])
      → pop_context contexts t (some a) tls ≡ (ok tt, insert (idname t) stack tls)
  unfolding pop_context is_expected
  pop_context-stack t a stack tls h =
      rw (pop_context, h, pop-append_singleton stack a, (instance_key.same_iff a a).1 refl) refl

  -- Whatever the nesting of pushes and pops of instances of their types, each pop expecting what
  -- was pushed, none raises, and every stack is at the end as it was.
  pub run_nest-restores :
      (u : Nest ContextType Instance) (tls : Tls contexts)
      → Instances u
      → (tls' : Tls contexts) × (run_nest u tls ≡ (ok tt, tls'))
        × ((k : Name) → stack_of contexts k tls' ≡ stack_of contexts k tls)
  unfolding run_nest push
  run_nest-restores done tls h = (tls, refl, λ k. refl)
  run_nest-restores (with_ t a body rest) tls (is_instance, (hb, hr)) =
      let key = idname t in
      let before = stack_of contexts key tls in
      let tls1 = insert key (before ++ a ∷ []) tls in
      let (tls2, ran, same2) = run_nest-restores body tls1 hb in
      let top : stack_of contexts key tls2 ≡ before ++ a ∷ [] =
        same2 key ∙ stack_of-top key (before ++ a ∷ []) tls in
      let (tls4, ran', same4) = run_nest-restores rest (insert key before tls2) hr in
      (
        tls4,
        rw
            (
              is_instance,
              ran,
              pop_context-stack t a before tls2
                  (stack_of-some key (before ++ a ∷ []) tls2 (nonempty key before a tls2 top) top),
            )
            ran',
        λ k. same4 k ∙ restored k key before (before ++ a ∷ []) tls tls2 refl same2,
      )

  get_last?-append : (xs : List Instance) (x : Instance) → get_last? (xs ++ x ∷ []) ≡ some x
  get_last?-append [] x = refl
  get_last?-append (y ∷ []) x = refl
  get_last?-append (y ∷ z ∷ xs) x = get_last?-append (z ∷ xs) x

  -- After a push of an instance of its type, it is the current instance of the type, and the
  -- types with other identifiers have the current instance they had.
  pub current-push :
      (t : ContextType) (a : Instance) (tls : Tls contexts)
      → isinstance a t ≡ true
      → (current contexts t (after (push contexts t a tls)) ≡ ok a)
        × ((u : ContextType)
            → idname u ≢ idname t
            → current contexts u (after (push contexts t a tls)) ≡ current contexts u tls)
  unfolding push current
  current-push t a tls h = (
    rw
        (
          h,
          current,
          lookup-insert (idname t) (idname t) (stack_of contexts (idname t) tls ++ a ∷ []) tls,
          eq_self (idname t),
          get_last?-append (stack_of contexts (idname t) tls) a,
          h,
        )
        refl,
    λ u ne.
        rw
          (
            h,
            current,
            lookup-insert (idname t) (idname u) (stack_of contexts (idname t) tls ++ a ∷ []) tls,
            eq_ne (idname u) (idname t) ne,
          )
          refl,
  )
