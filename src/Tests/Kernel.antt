-- ===== src/Tests/Kernel.antt =====
-- kernel: the theorems at concrete contexts and tracers, and runs of the definitions.
use shark_turbine.Common.{
  ℕ, ◌%◌, ◌≡◌, refl, List, [], ◌∷◌, ◌++◌, none, some, Name, codes, list_key, nat_key, option_key,
  nat_beq, inl, inr, length, ◌≢◌,
}
use shark_turbine.Common.Exc.{ok, after}
use shark_turbine.Common.Dict.{lookup}
use shark_turbine.Kernel.Context.{Contexts, Tls, stack_of, push, current}
use shark_turbine.Kernel.Context.Nesting.{
  Nest, done, with_, run_nest, run_nest-restores, current-push,
}
use shark_turbine.Kernel.Regions.{
  Proxy, proxy_key, Arg, constant, proxy, placeholder, call, Tracer, add_node, lift_in, lift,
  create_proxy, RegionGraph, add_subgraph,
}
use shark_turbine.Kernel.Regions.Lifting.{IsValid, Lifts, lift_lem}
use shark_turbine.Kernel.Regions.Closed.{create_proxy-IsValid}
use shark_turbine.Kernel.Regions.Subgraphs.{add_subgraph_lem}

-- Two context types, 0 and 1; an instance is of the type that its parity says.
abbrev parity : Contexts
parity = record {
  ContextType = ℕ;
  Instance = ℕ;
  idname = λ t. t ∷ [];
  isinstance = λ a t. nat_beq (a % 2) t;
  instance_key = nat_key;
}

abbrev nested : Nest ℕ ℕ
nested = with_ 0 4 (with_ 1 7 done (with_ 0 6 done done)) done

run_nest-restores_example :
    (tls : Tls parity) × (run_nest parity nested [] ≡ (ok tt, tls))
    × ((k : Name) → stack_of parity k tls ≡ stack_of parity k [])
run_nest-restores_example =
    run_nest-restores parity nested [] (refl, ((refl, (tt, (refl, (tt, tt)))), tt))

current-push_example :
    (current parity 0 (after (push parity 0 4 [])) ≡ ok 4)
    × ((u : ℕ)
        → u ∷ [] ≢ 0 ∷ []
        → current parity u (after (push parity 0 4 [])) ≡ current parity u [])
current-push_example = current-push parity 0 4 [] refl

abbrev empty_tracer : ℕ → Tracer ℕ
empty_tracer i = record { ident = i; graph = []; lifted_freevars = [] }

-- Two regions below the root, which made one proxy.
abbrev outer : Proxy
outer = record { tracer = 0; node = 0 }

abbrev parents : List (Tracer ℕ)
parents = empty_tracer 1 ∷ record { ident = 0; graph = placeholder ∷ []; lifted_freevars = [] } ∷ []

chain-IsValid : IsValid (empty_tracer 2 ∷ parents)
chain-IsValid = (
  (tt, λ p q h. absurd (cc)),
  (
    λ p q h. absurd (cc),
    (
      (tt, λ p q h. absurd (cc)),
      (λ p q h. absurd (cc), (((tt, tt), λ p q h. absurd (cc)), (λ p q h. absurd (cc), tt))),
    ),
  ),
)

lift_lem_example : Lifts outer (empty_tracer 2) parents
lift_lem_example = lift_lem outer (empty_tracer 2) parents chain-IsValid (inr (inl refl))

create_proxy-IsValid_example :
    (q : Proxy) × (args' : List (Arg ℕ)) × (t' : Tracer ℕ) × (up' : List (Tracer ℕ)) × (create_proxy
        (constant 5 ∷ proxy outer ∷ [])
        (empty_tracer 2 ∷ parents)
      ≡ (ok q, record t' { graph = t'.graph ++ call args' ∷ [] } ∷ up'))
    × (length args' ≡ 2)
    × (q.tracer ≡ 2)
    × IsValid (record t' { graph = t'.graph ++ call args' ∷ [] } ∷ up')
create_proxy-IsValid_example =
    create_proxy-IsValid (constant 5 ∷ proxy outer ∷ []) (empty_tracer 2) (empty_tracer 1)
      (record { ident = 0; graph = placeholder ∷ []; lifted_freevars = [] } ∷ []) chain-IsValid
      (tt, (inr (inr (inl refl)), tt))

-- The proxy is lifted through the region in between.
lift_test : lift outer (empty_tracer 2 ∷ parents) ≡ (
  ok (record { tracer = 2; node = 0 }),
  record {
    ident = 2;
    graph = placeholder ∷ [];
    lifted_freevars = (outer, record { tracer = 2; node = 0 }) ∷ [];
  }
      ∷ record {
        ident = 1;
        graph = placeholder ∷ [];
        lifted_freevars = (outer, record { tracer = 1; node = 0 }) ∷ [];
      }
      ∷ record { ident = 0; graph = placeholder ∷ []; lifted_freevars = [] }
      ∷ [],
)
unfolding lift lift_in add_node
lift_test = refl

abbrev one_region : RegionGraph
one_region = record { subgraphs = (codes "region_0", 1) ∷ []; inner_freevars = (1, []) ∷ [] }

add_subgraph_lem_example :
    (candidate : Name) × (g' : RegionGraph) × (add_subgraph
        (codes "region")
        2
        (outer ∷ [])
        one_region
      ≡ some (candidate, g'))
    × (lookup candidate one_region.subgraphs ≡ none)
    × (lookup candidate g'.subgraphs ≡ some 2)
    × ((other : Name)
        → other ≢ candidate
        → lookup other g'.subgraphs ≡ lookup other one_region.subgraphs)
    × (lookup 2 g'.inner_freevars ≡ some (outer ∷ []))
add_subgraph_lem_example = add_subgraph_lem (codes "region") 2 (outer ∷ []) one_region
