-- ===== src/Kernel/Context.antt =====
-- core/shark_turbine/kernel/_support/context.py: the stacks of current contexts. A thread's stacks
-- are a dictionary by identifier, in which a stack is absent until the first push.
pub mod Nesting
use shark_turbine.Common.{
  Bool, true, false, List, [], ◌∷◌, ◌++◌, Option, none, some, Name, Key, list_key, nat_key, ◌==◌,
  pop, get_last?, if◌then◌else◌,
}
use shark_turbine.Common.Exc.{
  Result, Exec, ok, err, assertion_error, index_error, attribute_error, check,
}
use shark_turbine.Common.Dict.{Dict, lookup, insert}

-- The context types, with their `__tk_context_idname__`, and the instances, with Python's
-- `isinstance` and `is`.
pub record Contexts : Type 1 where
  pub ContextType : Type 0
  pub Instance : Type 0
  pub idname : ContextType → Name
  pub isinstance : Instance → ContextType → Bool
  pub instance_key : Key Instance

module _ (contexts : Contexts) where
  open contexts use {ContextType, Instance, idname, isinstance, instance_key}

  abbrev pub Tls : Type 0
  Tls = Dict Name (List Instance)

  -- The stack that `push` appends to: the one that is there, or a new one.
  unfoldable pub stack_of : Name → Tls → List Instance
  stack_of key tls = elim (lookup key tls) [ none ↦ [] | some stack ↦ stack ]

  unfoldable pub push : ContextType → Instance → Exec Tls Instance
  push context_type instance_ tls =
      if isinstance instance_ context_type
      then (
        ok instance_,
        insert (idname context_type) (stack_of (idname context_type) tls ++ instance_ ∷ []) tls,
      )
      else (err assertion_error, tls)

  unfoldable pub is_expected : Option Instance → Instance → Bool
  is_expected none instance_ = true
  is_expected (some expected) instance_ = instance_key.same expected instance_

  -- The instance is off the stack when the expected one is compared.
  unfoldable pub pop_context : ContextType → Option Instance → Exec Tls (Unit {0})
  pop_context context_type expected tls = elim (lookup (idname context_type) tls) [
    | none ↦ (err attribute_error, tls)
    | some stack ↦ elim (pop stack) [
      | none ↦ (err index_error, tls)
      | some (instance_, rest) ↦ (
        check (is_expected expected instance_) assertion_error,
        insert (idname context_type) rest tls,
      )
    ]
  ]

  unfoldable pub current : ContextType → Tls → Result Instance
  current context_type tls = elim (lookup (idname context_type) tls) [
    | none ↦ err index_error
    | some stack ↦ elim (get_last? stack) [
      | none ↦ err index_error
      | some instance_ ↦
          if isinstance instance_ context_type then ok instance_ else err assertion_error
    ]
  ]
