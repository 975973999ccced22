-- ===== src/Kernel/Regions/Subgraphs.antt =====
-- _support/regions.py: the names of subgraphs.
use shark_turbine.Common.{
  ℕ, suc, ◌≡◌, refl, ◌∙◌, false, List, [], ◌∷◌, ◌++◌, none, some, Name, codes, list_key, nat_key,
  arith, length, append_cancel, contains, eq_self, eq_ne, ◌≢◌,
}
use shark_turbine.Common.Dict.{Dict, lookup, insert, keys, lookup-insert}
use shark_turbine.Common.Decimal.{show_nat, show_nat-injective}
use shark_turbine.Common.Fresh.{first_free_fresh, first_free_total}
use shark_turbine.Kernel.Regions.{Proxy, RegionGraph, candidate_name, add_subgraph}

candidate_name-injective :
    (name : Name) (i j : ℕ) → candidate_name name i ≡ candidate_name name j → i ≡ j
unfolding candidate_name
candidate_name-injective name i j h = show_nat-injective i j (
    append_cancel (codes "_") (show_nat i) (show_nat j)
      (append_cancel name (codes "_" ++ show_nat i) (codes "_" ++ show_nat j) h))

lookup-none :
    {V : Type 0} (k : Name) (d : Dict Name V) → contains k (keys d) ≡ false → lookup k d ≡ none
lookup-none k [] h = refl
lookup-none k ((j, v) ∷ d) h = ground (arith, lookup-none k d)

-- Adding a subgraph always ends, under a name that no subgraph had, which then gives the graph
-- while every other name gives what it gave, and the graph gives the inputs that were lifted for
-- it.
pub add_subgraph_lem :
    (name : Name) (graph : ℕ) (inner_freevars : List Proxy) (g : RegionGraph)
    → (candidate : Name) × (g' : RegionGraph) × (add_subgraph name graph inner_freevars g
        ≡ some (candidate, g'))
      × (lookup candidate g.subgraphs ≡ none)
      × (lookup candidate g'.subgraphs ≡ some graph)
      × ((other : Name) → other ≢ candidate → lookup other g'.subgraphs ≡ lookup other g.subgraphs)
      × (lookup graph g'.inner_freevars ≡ some inner_freevars)
unfolding add_subgraph
add_subgraph_lem name graph inner_freevars g =
    let names = keys g.subgraphs in
    let fuel = suc (length names) in
    let (c, found) =
      first_free_total (candidate_name name) (candidate_name-injective name) fuel names 0
        (omega arith) in
    (
      c,
      record {
        subgraphs = insert c graph g.subgraphs;
        inner_freevars = insert graph inner_freevars g.inner_freevars;
      },
      rw (add_subgraph, found) refl,
      lookup-none c g.subgraphs (first_free_fresh (candidate_name name) fuel names 0 c found),
      lookup-insert c c graph g.subgraphs ∙ rw (eq_self c) refl,
      λ other ne. lookup-insert c other graph g.subgraphs ∙ rw (eq_ne other c ne) refl,
      lookup-insert graph graph inner_freevars g.inner_freevars ∙ rw (eq_self graph) refl,
    )
