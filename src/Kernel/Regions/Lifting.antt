-- ===== src/Kernel/Regions/Lifting.antt =====
-- _support/regions.py: the lifting of a free variable through the regions between the tracer that
-- made it and the one that uses it.
use shark_turbine.Common.{
  ℕ, zero, suc, ◌++◌, get_elem?, length, ◌≡◌, refl, ap, sym, ◌∙◌, subst, false, List, [], ◌∷◌, some,
  list_key, nat_key, ◌==◌, if◌then◌else◌, nat_beq, nat_beq_iff, arith, ◌⊎◌, inl, inr, All,
  All-append, Bool-cases, Option-cases, eq_self,
}
use shark_turbine.Common.Exc.{ok}
use shark_turbine.Common.Dict.{lookup, lookup-insert}
use shark_turbine.Kernel.Regions.{
  Proxy, proxy_key, Arg, constant, proxy, Node, placeholder, call, Tracer, add_node, lift_in, lift,
}

get_elem-append {ℓ} :
    {A : Type ℓ} (xs ys : List A) (i : ℕ) {x : A}
    → get_elem? xs i ≡ some x
    → get_elem? (xs ++ ys) i ≡ some x
get_elem-append [] ys i e = cc
get_elem-append (x ∷ xs) ys zero e = e
get_elem-append (x ∷ xs) ys (suc i) e = get_elem-append xs ys i e

get_elem-end {ℓ} :
    {A : Type ℓ} (xs : List A) (x : A) → get_elem? (xs ++ x ∷ []) (length xs) ≡ some x
get_elem-end [] x = refl
get_elem-end (y ∷ xs) x = get_elem-end xs x

some_injective : {A : Type 0} (a b : A) → some a ≡ some b → a ≡ b
some_injective a b h = cc

module _ {C : Type 0} where
  abbrev pub OwnArg : ℕ → Arg C → Type 0
  OwnArg self (constant c) = Unit
  OwnArg self (proxy p) = p.tracer ≡ self

  abbrev pub OwnNode : ℕ → Node C → Type 0
  OwnNode self placeholder = Unit
  OwnNode self (call args) = All (OwnArg self) args

  -- The nodes of a tracer's graph, and its lifted variables, are proxies of this tracer.
  abbrev pub IsClosed : Tracer C → Type 0
  IsClosed t =
      All (OwnNode t.ident) t.graph
      × ((p q : Proxy) → lookup p t.lifted_freevars ≡ some q → q.tracer ≡ t.ident)

  -- The proxy's tracer stands above the innermost one.
  abbrev pub Above : Proxy → List (Tracer C) → Type 0
  Above p [] = ⊥
  Above p (t ∷ []) = ⊥
  Above p (t ∷ parent ∷ up) = (p.tracer ≡ parent.ident) ⊎ Above p (parent ∷ up)

  -- The proxy is of the tracer's own graph, in which its node is an input.
  abbrev pub IsInput : Proxy → Tracer C → Type 0
  IsInput q t = (q.tracer ≡ t.ident) × (get_elem? t.graph q.node ≡ some placeholder)

  -- Each tracer below the proxy's own has an input for it, under which the proxy is entered.
  abbrev pub IsLifted : Proxy → List (Tracer C) → Type 0
  IsLifted p [] = ⊥
  IsLifted p (t ∷ []) = ⊥
  IsLifted p (t ∷ parent ∷ up) =
      ((q : Proxy) × (lookup p t.lifted_freevars ≡ some q) × IsInput q t)
      × ((p.tracer ≡ parent.ident) ⊎ IsLifted p (parent ∷ up))

  abbrev pub IsValid : List (Tracer C) → Type 0
  IsValid [] = Unit
  IsValid (t ∷ up) =
      IsClosed t
      × (((p q : Proxy) → lookup p t.lifted_freevars ≡ some q → IsLifted p (t ∷ up)) × IsValid up)

  -- What lifting leaves: the same tracers, what was lifted, and the proxy.
  pub record Lifts (p : Proxy) (t : Tracer C) (up : List (Tracer C)) : Type 0 where
    pub lifted : Proxy
    pub self : Tracer C
    pub parents : List (Tracer C)
    pub returns : lift p (t ∷ up) ≡ (ok lifted, self ∷ parents)
    pub same_ident : self.ident ≡ t.ident
    pub found : lookup p self.lifted_freevars ≡ some lifted
    pub input : IsInput lifted self
    pub valid : IsValid (self ∷ parents)
    pub is_lifted : IsLifted p (self ∷ parents)
    pub keeps : (r : Proxy) → IsLifted r (t ∷ up) → IsLifted r (self ∷ parents)
    pub keeps_above : (r : Proxy) → Above r (t ∷ up) → Above r (self ∷ parents)

  lookup-lift_in :
      (p r : Proxy) (t : Tracer C)
      → lookup r (lift_in p t).1.lifted_freevars
        ≡ (if r == p then some (lift_in p t).0 else lookup r t.lifted_freevars)
  unfolding lift_in add_node
  lookup-lift_in p r t = lookup-insert p r (lift_in p t).0 t.lifted_freevars

  lookup-lift_in_self :
      (p : Proxy) (t : Tracer C) → lookup p (lift_in p t).1.lifted_freevars ≡ some (lift_in p t).0
  lookup-lift_in_self p t = lookup-lift_in p p t ∙ rw (eq_self p) refl

  pub IsInput-append :
      (q : Proxy) (n : Node C) (t : Tracer C)
      → IsInput q t
      → IsInput q (record t { graph = t.graph ++ n ∷ [] })
  IsInput-append q n t (own, e) = (own, get_elem-append t.graph (n ∷ []) q.node e)

  lift_in-IsInput : (p : Proxy) (t : Tracer C) → IsInput (lift_in p t).0 (lift_in p t).1
  unfolding lift_in add_node
  lift_in-IsInput p t = (refl, get_elem-end t.graph placeholder)

  lift_in-keeps_IsInput : (p q : Proxy) (t : Tracer C) → IsInput q t → IsInput q (lift_in p t).1
  unfolding lift_in add_node
  lift_in-keeps_IsInput p q t h = IsInput-append q placeholder t h

  -- What was lifted is still there.
  lookup-lift_in_old :
      (p r q : Proxy) (t : Tracer C)
      → lookup r t.lifted_freevars ≡ some q
      → IsInput q t
      → (q' : Proxy) × (lookup r (lift_in p t).1.lifted_freevars ≡ some q')
        × IsInput q' (lift_in p t).1
  lookup-lift_in_old p r q t h input = elim (Bool-cases (r == p)) [
    | inl e ↦ ((lift_in p t).0, lookup-lift_in p r t ∙ rw e refl, lift_in-IsInput p t)
    | inr e ↦ (q, lookup-lift_in p r t ∙ rw e h, lift_in-keeps_IsInput p q t input)
  ]

  lift_in-ident : (p : Proxy) (t : Tracer C) → (lift_in p t).1.ident ≡ t.ident
  unfolding lift_in add_node
  lift_in-ident p t = refl

  lift_in-IsClosed : (p : Proxy) (t : Tracer C) → IsClosed t → IsClosed (lift_in p t).1
  unfolding lift_in add_node
  lift_in-IsClosed p t (hg, hl) = (
    All-append (OwnNode t.ident) t.graph (placeholder ∷ []) hg (tt, tt),
    λ r q h. elim (Bool-cases (r == p)) [
      | inl e ↦
          let is_q : some (lift_in p t).0 ≡ some q = sym (lookup-lift_in p r t ∙ rw e refl) ∙ h in
          ap (λ q. q.tracer) (sym (some_injective (lift_in p t).0 q is_q))
      | inr e ↦ hl r q (sym (lookup-lift_in p r t ∙ rw e refl) ∙ h)
    ],
  )

  keeps-lift_in :
      (p r : Proxy) (t parent parent' : Tracer C) (up up' : List (Tracer C))
      → parent'.ident ≡ parent.ident
      → (IsLifted r (parent ∷ up) → IsLifted r (parent' ∷ up'))
      → IsLifted r (t ∷ parent ∷ up)
      → IsLifted r ((lift_in p t).1 ∷ parent' ∷ up')
  keeps-lift_in p r t parent parent' up up' same k ((q, h, input), above) = (
    lookup-lift_in_old p r q t h input,
    elim above [ inl e ↦ inl (e ∙ sym same) | inr l ↦ inr (k l) ],
  )

  lift_in-IsLifted :
      (p : Proxy) (t parent : Tracer C) (up : List (Tracer C))
      → (p.tracer ≡ parent.ident) ⊎ IsLifted p (parent ∷ up)
      → IsLifted p ((lift_in p t).1 ∷ parent ∷ up)
  lift_in-IsLifted p t parent up h =
      (((lift_in p t).0, lookup-lift_in_self p t, lift_in-IsInput p t), h)

  -- A tracer that lifts a proxy above valid parents, in which what was lifted still is.
  lift_in-IsValid :
      (p : Proxy) (t parent parent' : Tracer C) (up up' : List (Tracer C))
      → IsValid (t ∷ parent ∷ up)
      → IsValid (parent' ∷ up')
      → parent'.ident ≡ parent.ident
      → ((r : Proxy) → IsLifted r (parent ∷ up) → IsLifted r (parent' ∷ up'))
      → (p.tracer ≡ parent'.ident) ⊎ IsLifted p (parent' ∷ up')
      → IsValid ((lift_in p t).1 ∷ parent' ∷ up')
  lift_in-IsValid p t parent parent' up up' (closed, (all_lifted, _)) h' same k hp = (
    lift_in-IsClosed p t closed,
    (
      λ r q h. elim (Bool-cases (r == p)) [
        | inl e ↦
            subst (λ r. IsLifted r ((lift_in p t).1 ∷ parent' ∷ up'))
              (sym ((proxy_key.same_iff r p).0 e)) (lift_in-IsLifted p t parent' up' hp)
        | inr e ↦
            keeps-lift_in p r t parent parent' up up' same (k r)
              (all_lifted r q (sym (lookup-lift_in p r t ∙ rw e refl) ∙ h))
      ],
      h',
    ),
  )

  keeps_above_lem :
      (r : Proxy) (t t' parent parent' : Tracer C) (up up' : List (Tracer C))
      → parent'.ident ≡ parent.ident
      → (Above r (parent ∷ up) → Above r (parent' ∷ up'))
      → Above r (t ∷ parent ∷ up)
      → Above r (t' ∷ parent' ∷ up')
  keeps_above_lem r t t' parent parent' up up' same k (inl e) = inl (e ∙ sym same)
  keeps_above_lem r t t' parent parent' up up' same k (inr h) = inr (k h)

  Above-next :
      (p : Proxy) (t parent : Tracer C) (up : List (Tracer C))
      → nat_beq p.tracer parent.ident ≡ false
      → Above p (t ∷ parent ∷ up)
      → Above p (parent ∷ up)
  Above-next p t parent up diff (inl e) = absurd (ground (arith, diff, e))
  Above-next p t parent up diff (inr h) = h

  found-IsInput :
      (p q : Proxy) (t parent : Tracer C) (up : List (Tracer C))
      → lookup p t.lifted_freevars ≡ some q
      → IsLifted p (t ∷ parent ∷ up)
      → IsInput q t
  found-IsInput p q t parent up e ((q', h, input), above) =
      subst (λ r. IsInput r t) (some_injective q' q (sym h ∙ e)) input

  -- In a valid chain, lifting a proxy whose tracer stands above leaves every tracer below its own
  -- with an input node of its own graph that the proxy is entered for, returns the innermost
  -- tracer's input, keeps what was lifted, and keeps the chain valid.
  pub lift_lem :
      (p : Proxy) (t : Tracer C) (up : List (Tracer C))
      → IsValid (t ∷ up)
      → Above p (t ∷ up)
      → Lifts p t up
  unfolding lift
  lift_lem p t [] h above = absurd above
  lift_lem p t (parent ∷ up) h above = elim (Option-cases (lookup p t.lifted_freevars)) [
    | inr (q, e) ↦ record {
      lifted = q;
      self = t;
      parents = parent ∷ up;
      returns = rw (lift, e) refl;
      same_ident = refl;
      found = e;
      input = found-IsInput p q t parent up e (h.1.0 p q e);
      valid = h;
      is_lifted = h.1.0 p q e;
      keeps = λ r l. l;
      keeps_above = λ r l. l;
    }
    | inl e ↦ elim (Bool-cases (nat_beq p.tracer parent.ident)) [
      | inl same ↦
          let hp = inl ((nat_beq_iff p.tracer parent.ident).0 same) in
          record {
            lifted = (lift_in p t).0;
            self = (lift_in p t).1;
            parents = parent ∷ up;
            returns = rw (lift, e, same) refl;
            same_ident = lift_in-ident p t;
            found = lookup-lift_in_self p t;
            input = lift_in-IsInput p t;
            valid = lift_in-IsValid p t parent parent up up h h.1.1 refl (λ r l. l) hp;
            is_lifted = lift_in-IsLifted p t parent up hp;
            keeps = λ r. keeps-lift_in p r t parent parent up up refl (λ l. l);
            keeps_above =
                λ r. keeps_above_lem r t (lift_in p t).1 parent parent up up refl (λ l. l);
          }
      | inr diff ↦
          let l = lift_lem p parent up h.1.1 (Above-next p t parent up diff above) in
          record {
            lifted = (lift_in p t).0;
            self = (lift_in p t).1;
            parents = l.self ∷ l.parents;
            returns = rw (lift, e, diff, l.returns) refl;
            same_ident = lift_in-ident p t;
            found = lookup-lift_in_self p t;
            input = lift_in-IsInput p t;
            valid =
                lift_in-IsValid p t parent l.self up l.parents h l.valid l.same_ident l.keeps
                  (inr l.is_lifted);
            is_lifted = lift_in-IsLifted p t l.self l.parents (inr l.is_lifted);
            keeps = λ r. keeps-lift_in p r t parent l.self up l.parents l.same_ident (l.keeps r);
            keeps_above = λ r.
                keeps_above_lem r t (lift_in p t).1 parent l.self up l.parents l.same_ident
                  (l.keeps_above r);
          }
    ]
  ]
