-- ===== src/Transforms/Rewriter/Erasing.antt =====
-- transforms/rewriter.py: what is left when unused operations have been erased, and the end of the
-- rounds.
use shark_turbine.Common.{
  ℕ, zero, suc, ◌+◌, ◌<◌, ◌≤◌, ◌≡◌, refl, ap, ◌∙◌, subst, true, false, List, [], ◌∷◌, Option, none,
  some, length, if◌then◌else◌, ◌==◌, nat_key, nat_beq_iff, ◌⊎◌, inl, inr, Bool-cases, Option-cases,
  arith,
}
use shark_turbine.Common.Exc.{Result, ok, err, Result-cases}
use shark_turbine.Transforms.Rewriter.{
  Operation, Graph, Erasure, get_op, erase, op_is_live, is_erasable_value_op, erase_op, erase_round,
  erase_rounds, erase_unused_op,
}

get_op-erase : (i j : ℕ) (g : Graph) → get_op j (erase i g) ≡ (if j == i then none else get_op j g)
unfolding get_op erase
get_op-erase i j [] = ground arith
get_op-erase i j (op ∷ g) = ground (arith, get_op-erase i j g)

op_is_live-erase : (i j : ℕ) (g : Graph) → op_is_live j (erase i g) ≡ true → op_is_live j g ≡ true
unfolding op_is_live erase
op_is_live-erase i j [] h = h
op_is_live-erase i j (op ∷ g) h = ground (arith, op_is_live-erase i j g)

length-erase_le : (i : ℕ) (g : Graph) → length (erase i g) ≤ length g
unfolding erase
length-erase_le i [] = omega arith
length-erase_le i (op ∷ g) = ground (arith, length-erase_le i g)

length-erase :
    (i : ℕ) (g : Graph) (op : Operation) → get_op i g ≡ some op → length (erase i g) < length g
unfolding get_op erase
length-erase i [] op h = absurd (cc)
length-erase i (o ∷ g) op h = ground (arith, length-erase_le i g, length-erase i g op)

-- Each operand that is a result is that of an operation of the graph.
pub record Closed (g : Graph) : Type 0 where
  pub owner : (i : ℕ) → op_is_live i g ≡ true → (op : Operation) × (get_op i g ≡ some op)

-- What is left is as it was, and all that is no torch operation is left.
pub record Trims (g h : Graph) : Type 0 where
  pub closed : Closed g → Closed h
  pub same : (i : ℕ) (op : Operation) → get_op i h ≡ some op → get_op i g ≡ some op
  pub kept :
      (i : ℕ) (op : Operation)
      → get_op i g ≡ some op
      → is_erasable_value_op op ≡ false
      → get_op i h ≡ some op

Trims-self : (g : Graph) → Trims g g
Trims-self g = record { closed = λ c. c; same = λ i op e. e; kept = λ i op e f. e }

Trims-next : (f g h : Graph) → Trims f g → Trims g h → Trims f h
Trims-next f g h first next = record {
  closed = λ c. next.closed (first.closed c);
  same = λ i op e. first.same i op (next.same i op e);
  kept = λ i op e k. next.kept i op (first.kept i op e k) k;
}

Trims-erase :
    (i : ℕ) (g : Graph) (op : Operation)
    → get_op i g ≡ some op
    → is_erasable_value_op op ≡ true
    → op_is_live i g ≡ false
    → Trims g (erase i g)
Trims-erase i g op at torch dead = record {
  closed = λ c. record {
    owner = λ j live. elim (Bool-cases (j == i)) [
      | inl e ↦
          let same = (nat_beq_iff j i).0 e in
          let was = op_is_live-erase i j g live in
          absurd (let now = subst (λ x. op_is_live x g ≡ true) same was in cc)
      | inr e ↦
          let (p, f) = c.owner j (op_is_live-erase i j g live) in (p, rw (get_op-erase i j g, e) f)
    ];
  };
  same = λ j p e. elim (Bool-cases (j == i)) [
    | inl f ↦ absurd (let k = (rw (get_op-erase i j g, f) at e) in cc)
    | inr f ↦ rw (get_op-erase i j g, f) at e
  ];
  kept = λ j p e k. elim (Bool-cases (j == i)) [
    | inl f ↦
        let same = (nat_beq_iff j i).0 f in
        let here = subst (λ x. get_op x g ≡ some p) same e in
        absurd (
          let one : op ≡ p = cc in
          let torch_too = subst (λ x. is_erasable_value_op x ≡ true) one torch in cc)
    | inr f ↦ rw (get_op-erase i j g, f) e
  ];
}

-- What a part of a round does: it trims the graph, and a worklist that grows costs an operation.
record Rounds (s t : Erasure) : Type 0 where
  trims : Trims s.graph t.graph
  costs :
      ((t.worklist ≡ s.worklist) × (length t.graph ≤ length s.graph))
      ⊎ (length t.graph < length s.graph)

Rounds-self : (s : Erasure) → Rounds s s
Rounds-self s = record { trims = Trims-self s.graph; costs = inl (refl, omega arith) }

costs_next :
    (s t u : Erasure)
    → Rounds s t
    → Rounds t u
    → ((u.worklist ≡ s.worklist) × (length u.graph ≤ length s.graph))
      ⊎ (length u.graph < length s.graph)
costs_next s t u first next = elim first.costs [
  | inl (e, le) ↦ elim next.costs [
    | inl (f, le1) ↦ inl (f ∙ e, omega arith)
    | inr lt ↦ inr (omega arith)
  ]
  | inr lt ↦ elim next.costs [ inl (f, le1) ↦ inr (omega arith) | inr lt1 ↦ inr (omega arith) ]
]

Rounds-next : (s t u : Erasure) → Rounds s t → Rounds t u → Rounds s u
Rounds-next s t u first next = record {
  trims = Trims-next s.graph t.graph u.graph first.trims next.trims;
  costs = costs_next s t u first next;
}

erase_op-Rounds : (i : ℕ) (s : Erasure) → Rounds s (erase_op i s).1
unfolding erase_op
erase_op-Rounds i s = elim (Option-cases (get_op i s.graph)) [
  | inl e ↦ rw (erase_op, e) (Rounds-self s)
  | inr (op, e) ↦ elim (Bool-cases (is_erasable_value_op op)) [
    | inr f ↦ rw (erase_op, e, f) (Rounds-self s)
    | inl f ↦ elim (Bool-cases (op_is_live i s.graph)) [
      | inl live ↦ rw (erase_op, e, f, live) (Rounds-self s)
      | inr dead ↦
          rw (erase_op, e, f, dead)
            (record {
              trims = Trims-erase i s.graph op e f dead;
              costs = inr (length-erase i s.graph op e);
            })
    ]
  ]
]

erase_round-Rounds : (ops : List ℕ) (s : Erasure) → Rounds s (erase_round ops s).1
unfolding erase_round
erase_round-Rounds [] s = Rounds-self s
erase_round-Rounds (i ∷ ops) s = elim (Result-cases ((erase_op i s).0)) [
  | inl (x, e) ↦ rw (erase_round, e) (erase_op-Rounds i s)
  | inr (x, e) ↦
      rw (erase_round, e)
        (Rounds-next s (erase_op i s).1 _ (erase_op-Rounds i s)
          (erase_round-Rounds ops (erase_op i s).1))
]

pub record Finishes (g : Graph) (outcome : Option (Result (Unit {0}) × Graph)) : Type 0 where
  pub result : Result (Unit {0})
  pub left : Graph
  pub finished : outcome ≡ some (result, left)
  pub trims : Trims g left

Finishes-next :
    (g h : Graph) (outcome : Option (Result (Unit {0}) × Graph))
    → Trims g h
    → Finishes h outcome
    → Finishes g outcome
Finishes-next g h outcome first next = record {
  result = next.result;
  left = next.left;
  finished = next.finished;
  trims = Trims-next g h next.left first next.trims;
}

module _ (arrange : List ℕ → List ℕ) (nothing : arrange [] ≡ []) where
  erase_rounds_nil :
      (fuel : ℕ) (ops : List ℕ) (g : Graph)
      → ops ≡ []
      → 1 ≤ fuel
      → Finishes g (erase_rounds arrange fuel ops g)
  unfolding erase_rounds
  erase_rounds_nil zero ops g e h = absurd (omega arith)
  erase_rounds_nil (suc fuel) [] g e h = record {
    result = ok tt;
    left = g;
    finished = refl;
    trims = Trims-self g;
  }
  erase_rounds_nil (suc fuel) (i ∷ ops) g e h = absurd (cc)

  erase_rounds-Finishes :
      (fuel : ℕ) (ops : List ℕ) (g : Graph)
      → length g + 2 ≤ fuel
      → Finishes g (erase_rounds arrange fuel ops g)
  unfolding erase_rounds
  erase_rounds-Finishes zero ops g h = absurd (omega arith)
  erase_rounds-Finishes (suc fuel) [] g h = erase_rounds_nil (suc fuel) [] g refl (omega arith)
  erase_rounds-Finishes (suc fuel) (i ∷ ops) g h =
      let s : Erasure = record { graph = g; worklist = [] } in
      let t = (erase_round (i ∷ ops) s).1 in
      let round = erase_round-Rounds (i ∷ ops) s in
      elim (Result-cases ((erase_round (i ∷ ops) s).0)) [
        | inl (x, e) ↦
            rw (erase_rounds, e)
              (record { result = err x; left = t.graph; finished = refl; trims = round.trims })
        | inr (x, e) ↦
            rw (erase_rounds, e)
              (Finishes-next g t.graph _ round.trims (elim round.costs [
                | inl (same, le) ↦
                    erase_rounds_nil fuel (arrange t.worklist) t.graph (ap arrange same ∙ nothing)
                      (omega arith)
                | inr lt ↦ erase_rounds-Finishes fuel (arrange t.worklist) t.graph (omega arith)
              ]))
      ]

  -- In whatever order the sets are gone through, if an empty one has nothing in it, the erasing
  -- of unused operations ends, with an error or without, after at most two more rounds than there
  -- are operations; what is then left is as it was, all that is no torch operation is left, and
  -- if each operand that is a result was that of an operation of the graph, this is still so.
  pub erase_unused_op-Finishes :
      (op : ℕ) (g : Graph) → Finishes g (erase_unused_op arrange (length g + 2) op g)
  unfolding erase_unused_op
  erase_unused_op-Finishes op g = erase_rounds-Finishes (length g + 2) (op ∷ []) g (omega arith)
