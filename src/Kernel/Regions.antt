-- ===== src/Kernel/Regions.antt =====
-- core/shark_turbine/kernel/_support/regions.py: tracing of nested regions. The tracers that are
-- open form a chain, the innermost first, each followed by its parent; a proxy knows its tracer, and
-- a tracer's graph is the list of its nodes.
pub mod Lifting
pub mod Closed
pub mod Subgraphs
use shark_turbine.Common.{
  ℕ, zero, suc, ◌+◌, ◌≡◌, Bool, true, false, List, [], ◌∷◌, ◌++◌, Option, none, some, Name, codes,
  length, Key, list_key, nat_key, ◌==◌, ◌&&◌, if◌then◌else◌, nat_beq, arith, ◌↔◌,
}
use shark_turbine.Common.Exc.{Result, Exec, ok, err, assertion_error}
use shark_turbine.Common.Dict.{Dict, lookup, insert, keys}
use shark_turbine.Common.Decimal.{show_nat}
use shark_turbine.Common.Fresh.{first_free}

-- A proxy is told apart by the tracer that made it and by its node.
pub record Proxy : Type 0 where
  pub tracer : ℕ
  pub node : ℕ

unfoldable pub same_proxy : Proxy → Proxy → Bool
same_proxy p q = nat_beq p.tracer q.tracer && nat_beq p.node q.node

pub same_proxy_iff : (p q : Proxy) → (same_proxy p q ≡ true) ↔ (p ≡ q)
unfolding same_proxy
same_proxy_iff p q = ground arith

instance abbrev pub proxy_key : Key Proxy
proxy_key = record { same = same_proxy; same_iff = same_proxy_iff }

-- An argument of an operation: a proxy, or a value that no tracer made.
pub data Arg (C : Type 0) : Type 0 where
  constant : C → Arg C
  proxy : Proxy → Arg C

pub data Node (C : Type 0) : Type 0 where
  placeholder : Node C
  call : List (Arg C) → Node C

pub record Tracer (C : Type 0) : Type 0 where
  pub ident : ℕ
  pub graph : List (Node C)
  pub lifted_freevars : Dict Proxy Proxy

module _ {C : Type 0} where
  -- RegionGraph.subtracer: the new tracer, told apart by `ident`, has the current one as its parent.
  unfoldable pub subtracer : ℕ → List (Tracer C) → List (Tracer C)
  subtracer ident chain = record { ident = ident; graph = []; lifted_freevars = [] } ∷ chain

  -- RegionGraph.current_tracer, of the tracers that are open
  unfoldable pub current_tracer : List (Tracer C) → Option (Tracer C)
  current_tracer [] = none
  current_tracer (t ∷ up) = some t

  -- Tracer.create_proxy of torch: a node at the end of the graph, and its proxy
  unfoldable pub add_node : Node C → Tracer C → Proxy × Tracer C
  add_node n t =
      (record { tracer = t.ident; node = length t.graph }, record t { graph = t.graph ++ n ∷ [] })

  unfoldable pub lift_in : Proxy → Tracer C → Proxy × Tracer C
  lift_in p t =
      let (q, t') = add_node placeholder t in
      (q, record t' { lifted_freevars = insert p q t'.lifted_freevars })

  -- What the parents raise is raised behind the change of this tracer.
  abbrev pub below :
      Proxy × Tracer C → Result Proxy × List (Tracer C) → Result Proxy × List (Tracer C)
  below (q, t) (ok _, up) = (ok q, t ∷ up)
  below (q, t) (err e, up) = (err e, t ∷ up)

  -- SubgraphTracer._lift_tracked_freevar_to_input
  unfoldable pub lift : Proxy → Exec (List (Tracer C)) Proxy
  lift p [] = (err assertion_error, [])
  lift p (t ∷ []) = (err assertion_error, t ∷ [])
  lift p (t ∷ parent ∷ up) =
      let lifted_above = lift p (parent ∷ up) in
      elim (lookup p t.lifted_freevars) [
        | some q ↦ (ok q, t ∷ parent ∷ up)
        | none ↦
            if nat_beq p.tracer parent.ident
            then below (lift_in p t) (ok p, parent ∷ up)
            else below (lift_in p t) lifted_above
      ]

  abbrev pub as_arg : Result Proxy × List (Tracer C) → Result (Arg C) × List (Tracer C)
  as_arg (ok q, chain) = (ok (proxy q), chain)
  as_arg (err e, chain) = (err e, chain)

  -- SubgraphTracer._maybe_lift_tracked_freevar_to_input, of the tracer numbered `self`
  unfoldable pub maybe_lift : ℕ → Arg C → Exec (List (Tracer C)) (Arg C)
  maybe_lift self (constant c) chain = (ok (constant c), chain)
  maybe_lift self (proxy p) chain =
      let lifted = as_arg (lift p chain) in
      if nat_beq p.tracer self then (ok (proxy p), chain) else lifted

  abbrev pub cons_arg :
      Arg C → Result (List (Arg C)) × List (Tracer C) → Result (List (Arg C)) × List (Tracer C)
  cons_arg a (ok args, chain) = (ok (a ∷ args), chain)
  cons_arg a (err e, chain) = (err e, chain)

  abbrev pub then_args :
      Result (Arg C) × List (Tracer C)
      → Exec (List (Tracer C)) (List (Arg C))
      → Result (List (Arg C)) × List (Tracer C)
  then_args (err e, chain) k = (err e, chain)
  then_args (ok a, chain) k = cons_arg a (k chain)

  -- The loop over the flattened arguments.
  unfoldable pub lift_args : ℕ → List (Arg C) → Exec (List (Tracer C)) (List (Arg C))
  lift_args self [] chain = (ok [], chain)
  lift_args self (a ∷ args) chain = then_args (maybe_lift self a chain) (lift_args self args)

  abbrev pub finish : Result (List (Arg C)) × List (Tracer C) → Result Proxy × List (Tracer C)
  finish (err e, chain) = (err e, chain)
  finish (ok args, []) = (err assertion_error, [])
  finish (ok args, t ∷ up) = let (p, t') = add_node (call args) t in (ok p, t' ∷ up)

  -- SubgraphTracer.create_proxy, of the innermost tracer; the root lifts nothing.
  unfoldable pub create_proxy : List (Arg C) → Exec (List (Tracer C)) Proxy
  create_proxy args [] = (err assertion_error, [])
  create_proxy args (t ∷ []) = finish (ok args, t ∷ [])
  create_proxy args (t ∷ parent ∷ up) = finish (lift_args t.ident args (t ∷ parent ∷ up))

-- RegionGraph: the subgraphs by name, and the lifted inputs of each graph. A graph is told apart by
-- the number of its tracer.
pub record RegionGraph : Type 0 where
  pub subgraphs : Dict Name ℕ
  pub inner_freevars : Dict ℕ (List Proxy)

unfoldable pub candidate_name : Name → ℕ → Name
candidate_name name i = name ++ (codes "_" ++ show_nat i)

-- RegionGraph.add_subgraph, with one more round than there are subgraphs
unfoldable pub add_subgraph : Name → ℕ → List Proxy → RegionGraph → Option (Name × RegionGraph)
add_subgraph name graph inner_freevars g =
    elim (first_free (candidate_name name) (suc (length (keys g.subgraphs))) (keys g.subgraphs) 0) [
      | none ↦ none
      | some candidate ↦ some (
        candidate,
        record {
          subgraphs = insert candidate graph g.subgraphs;
          inner_freevars = insert graph inner_freevars g.inner_freevars;
        },
      )
    ]

abbrev pub values {ℓ} : {K : Type ℓ} {V : Type 0} → Dict K V → List V
values [] = []
values ((k, v) ∷ d) = v ∷ values d

-- The end of SubgraphTracer.trace: the name of the subgraph, and the proxies that it captures.
unfoldable pub close_tracer :
    {C : Type 0} → Tracer C → RegionGraph → Option ((Name × List Proxy) × RegionGraph)
close_tracer t g = elim (add_subgraph (codes "region") t.ident (values t.lifted_freevars) g) [
  | none ↦ none
  | some (name, g') ↦ some ((name, keys t.lifted_freevars), g')
]
