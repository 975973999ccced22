-- ===== src/Serving/Session/Modules.antt =====
-- DeviceSession and ModuleSet of serving/turbine_serving/framework/session.py. Modules and their
-- functions are the IREE runtime's; a module is its name and its lookup. A host context is known
-- by its number. Driver and device handles are not kept.
use shark_turbine.Common.{
  ℕ, zero, suc, ◌+◌, ◌%◌, Bool, true, false, List, [], ◌∷◌, ◌++◌, Option, none, some, Name, length,
  get_elem?, get_last?, ◌==◌, nat_beq, if◌then◌else◌, ltb, nat_key, list_key,
}
use shark_turbine.Common.Exc.{
  Result, Exec, ok, err, assertion_error, key_error, index_error, zero_division_error, or_raise,
  check, ◌>>=◌, ◌>>◌,
}
use shark_turbine.Common.Dict.{Dict, lookup, has_key, insert}
use shark_turbine.Serving.Session.WorkQueue.{WorkQueue, new_queue}

-- iree.runtime.VmModule
pub record VmModule (F : Type 0) : Type 0 where
  pub name : Name
  pub lookup_function : Name → Option F

pub record ModuleSet (F : Type 0) : Type 0 where
  pub name : Name
  pub modules : List (VmModule F)
  pub contexts : List (Option ℕ)
  pub context_counter : ℕ

-- [None] * n
nones : ℕ → List (Option ℕ)
nones zero = []
nones (suc n) = none ∷ nones n

unfoldable pub number_from : ℕ → List (Option ℕ) → List (Option ℕ)
number_from i [] = []
number_from i (c ∷ cs) = some i ∷ number_from (suc i) cs

module _ {F : Type 0} where
  -- ModuleSet.__init__; the first module is the HAL's
  unfoldable pub new_module_set : VmModule F → Name → ℕ → Result (ModuleSet F)
  unfolding nones
  new_module_set hal_module name context_count = do
    check (ltb 0 context_count) assertion_error
    ok (record {
      name = name;
      modules = hal_module ∷ [];
      contexts = nones context_count;
      context_counter = 0;
    })

  -- The list of contexts is never empty, by the constructor's assertion.
  unfoldable pub initialized : ModuleSet F → Bool
  initialized ms = elim (get_last? ms.contexts) [
    | none ↦ false
    | some c ↦ elim c [ none ↦ false | some _ ↦ true ]
  ]

  unfoldable pub add : List (VmModule F) → ModuleSet F → ModuleSet F
  add ms s = record s { modules = s.modules ++ ms }

  unfoldable pub initialize : Exec (ModuleSet F) (Unit {0})
  unfolding initialized number_from
  initialize s =
      if initialized s
      then (err assertion_error, s)
      else (ok tt, record s { contexts = number_from 0 s.contexts })

  unfoldable pub find_module : List (VmModule F) → Name → Result (VmModule F)
  find_module [] name = err key_error
  find_module (m ∷ ms) name = if m.name == name then ok m else find_module ms name

  unfoldable pub function : ModuleSet F → Name → Name → Result F
  unfolding find_module
  function s module_name function_name = do
    m ← find_module s.modules module_name
    or_raise (m.lookup_function function_name) key_error

  unfoldable pub host_context : Exec (ModuleSet F) ℕ
  host_context s =
      let counter = s.context_counter + 1 in
      let s' : ModuleSet F = record s { context_counter = counter } in
      elim (get_elem? s.contexts (counter % length s.contexts)) [
        | none ↦ (err index_error, s')
        | some c ↦ elim c [ none ↦ (err assertion_error, s') | some hc ↦ (ok hc, s') ]
      ]

pub record DeviceSession (F : Type 0) : Type 0 where
  pub module_sets : Dict Name (ModuleSet F)
  pub queues : List WorkQueue
  pub queue_request_count : ℕ

-- [WorkQueue(self, i) for i in range(queue_count)]
unfoldable pub queues_from : ℕ → ℕ → List WorkQueue
queues_from i zero = []
queues_from i (suc n) = new_queue i ∷ queues_from (suc i) n

module _ {F : Type 0} where
  unfoldable pub new_session : ℕ → DeviceSession F
  unfolding queues_from
  new_session queue_count = record {
    module_sets = [];
    queues = queues_from 0 queue_count;
    queue_request_count = 0;
  }

  unfoldable pub create_module_set : VmModule F → Name → ℕ → Exec (DeviceSession F) (ModuleSet F)
  unfolding new_module_set
  create_module_set hal_module name context_count s =
      if has_key name s.module_sets
      then (err assertion_error, s)
      else elim (new_module_set hal_module name context_count) [
        | err e ↦ (err e, s)
        | ok lm ↦ (ok lm, record s { module_sets = insert name lm s.module_sets })
      ]

  unfoldable pub module_set : DeviceSession F → Name → Result (ModuleSet F)
  module_set s name = or_raise (lookup name s.module_sets) key_error

  -- `none` stands for a negative index; the result is the place of the queue in `queues`.
  unfoldable pub queue : Option ℕ → Exec (DeviceSession F) WorkQueue
  queue (some index) s = (or_raise (get_elem? s.queues index) index_error, s)
  queue none s =
      let qc = s.queue_request_count + 1 in
      let s' : DeviceSession F = record s { queue_request_count = qc } in
      if nat_beq (length s.queues) 0
      then (err zero_division_error, s')
      else (or_raise (get_elem? s.queues (qc % length s.queues)) index_error, s')
