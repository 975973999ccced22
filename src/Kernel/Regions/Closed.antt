-- ===== src/Kernel/Regions/Closed.antt =====
-- _support/regions.py: recording an operation in a region's graph, and opening a region.
use shark_turbine.Common.{
  ℕ, some, suc, ◌≡◌, refl, ap, sym, ◌∙◌, subst, false, List, [], ◌∷◌, ◌++◌, list_key, nat_key,
  nat_beq, nat_beq_iff, arith, ◌⊎◌, inl, inr, All, All-append, All-mono, Bool-cases, length,
}
use shark_turbine.Common.Exc.{ok}
use shark_turbine.Kernel.Regions.{
  Proxy, proxy_key, Arg, constant, proxy, Node, call, Tracer, add_node, maybe_lift, cons_arg,
  lift_args, create_proxy, subtracer, current_tracer,
}
use shark_turbine.Kernel.Regions.Lifting.{
  OwnArg, OwnNode, Above, IsLifted, IsInput-append, IsValid, Lifts, lift_lem,
}

module _ {C : Type 0} where
  -- A proxy of this tracer, or one whose tracer stands above.
  abbrev pub IsUsable : List (Tracer C) → Arg C → Type 0
  IsUsable [] a = ⊥
  IsUsable (t ∷ up) (constant c) = Unit
  IsUsable (t ∷ up) (proxy p) = (p.tracer ≡ t.ident) ⊎ Above p (t ∷ up)

  -- What the call on one argument leaves.
  record LiftsArg (a : Arg C) (t : Tracer C) (up : List (Tracer C)) : Type 0 where
    arg : Arg C
    self : Tracer C
    parents : List (Tracer C)
    returns : maybe_lift t.ident a (t ∷ up) ≡ (ok arg, self ∷ parents)
    same_ident : self.ident ≡ t.ident
    valid : IsValid (self ∷ parents)
    own : OwnArg t.ident arg
    keeps : (b : Arg C) → IsUsable (t ∷ up) b → IsUsable (self ∷ parents) b

  maybe_lift_lem :
      (a : Arg C) (t : Tracer C) (up : List (Tracer C))
      → IsValid (t ∷ up)
      → IsUsable (t ∷ up) a
      → LiftsArg a t up
  unfolding maybe_lift
  maybe_lift_lem (constant c) t up h u = record {
    arg = constant c;
    self = t;
    parents = up;
    returns = refl;
    same_ident = refl;
    valid = h;
    own = tt;
    keeps = λ b k. k;
  }
  maybe_lift_lem (proxy p) t up h u = elim (Bool-cases (nat_beq p.tracer t.ident)) [
    | inl own ↦ record {
      arg = proxy p;
      self = t;
      parents = up;
      returns = rw own refl;
      same_ident = refl;
      valid = h;
      own = (nat_beq_iff p.tracer t.ident).0 own;
      keeps = λ b k. k;
    }
    | inr other ↦
        let l = lift_lem p t up h (foreign p t up other u) in
        record {
          arg = proxy l.lifted;
          self = l.self;
          parents = l.parents;
          returns = rw (other, l.returns) refl;
          same_ident = l.same_ident;
          valid = l.valid;
          own = l.valid.0.1 p l.lifted l.found ∙ l.same_ident;
          keeps = keeps_usable p t up l;
        }
  ]
    where
      foreign :
          (p : Proxy) (t : Tracer C) (up : List (Tracer C))
          → nat_beq p.tracer t.ident ≡ false
          → IsUsable (t ∷ up) (proxy p)
          → Above p (t ∷ up)
      foreign p t up other (inl e) = absurd (ground (arith, other, e))
      foreign p t up other (inr above) = above

      keeps_usable :
          (p : Proxy) (t : Tracer C) (up : List (Tracer C)) (l : Lifts p t up) (b : Arg C)
          → IsUsable (t ∷ up) b
          → IsUsable (l.self ∷ l.parents) b
      keeps_usable p t up l (constant c) k = tt
      keeps_usable p t up l (proxy r) (inl e) = inl (e ∙ sym l.same_ident)
      keeps_usable p t up l (proxy r) (inr above) = inr (l.keeps_above r above)

  record LiftsArgs (args : List (Arg C)) (t : Tracer C) (up : List (Tracer C)) : Type 0 where
    lifted : List (Arg C)
    self : Tracer C
    parents : List (Tracer C)
    returns : lift_args t.ident args (t ∷ up) ≡ (ok lifted, self ∷ parents)
    same_ident : self.ident ≡ t.ident
    valid : IsValid (self ∷ parents)
    own : All (OwnArg t.ident) lifted
    same_length : length lifted ≡ length args

  lift_args_lem :
      (args : List (Arg C)) (t : Tracer C) (up : List (Tracer C))
      → IsValid (t ∷ up)
      → All (IsUsable (t ∷ up)) args
      → LiftsArgs args t up
  unfolding lift_args
  lift_args_lem [] t up h u = record {
    lifted = [];
    self = t;
    parents = up;
    returns = refl;
    same_ident = refl;
    valid = h;
    own = tt;
    same_length = refl;
  }
  lift_args_lem (a ∷ args) t up h (ua, us) =
      let l = maybe_lift_lem a t up h ua in
      let ls = lift_args_lem args l.self l.parents l.valid (All-mono args l.keeps us) in
      record {
        lifted = l.arg ∷ ls.lifted;
        self = ls.self;
        parents = ls.parents;
        returns = rw l.returns (
            ap (λ i. cons_arg l.arg (lift_args i args (l.self ∷ l.parents))) (sym l.same_ident)
            ∙ rw ls.returns refl);
        same_ident = ls.same_ident ∙ l.same_ident;
        valid = ls.valid;
        own = (l.own, subst (λ i. All (OwnArg i) ls.lifted) l.same_ident ls.own);
        same_length = ap suc ls.same_length;
      }

  IsLifted-append :
      (p : Proxy) (t : Tracer C) (n : Node C) (up : List (Tracer C))
      → IsLifted p (t ∷ up)
      → IsLifted p (record t { graph = t.graph ++ n ∷ [] } ∷ up)
  IsLifted-append p t n [] l = l
  IsLifted-append p t n (parent ∷ up) ((q, h, input), above) =
      ((q, h, IsInput-append q n t input), above)

  IsValid-call :
      (args : List (Arg C)) (t : Tracer C) (up : List (Tracer C))
      → IsValid (t ∷ up)
      → All (OwnArg t.ident) args
      → IsValid (record t { graph = t.graph ++ call args ∷ [] } ∷ up)
  IsValid-call args t up ((hg, hl), (all_lifted, valid)) own = (
    (All-append (OwnNode t.ident) t.graph (call args ∷ []) hg (own, tt), hl),
    (λ p q h. IsLifted-append p t (call args) up (all_lifted p q h), valid),
  )

  -- In a valid chain of at least two open tracers, recording an operation whose arguments are
  -- constants, proxies of the innermost tracer or proxies of tracers above it raises nothing,
  -- records one argument for each, returns a proxy of the innermost tracer, and leaves a valid
  -- chain: each node uses proxies of its own tracer alone, and what is lifted is lifted up to its
  -- tracer.
  pub create_proxy-IsValid :
      (args : List (Arg C)) (t parent : Tracer C) (up : List (Tracer C))
      → IsValid (t ∷ parent ∷ up)
      → All (IsUsable (t ∷ parent ∷ up)) args
      → (q : Proxy) × (args' : List (Arg C)) × (t' : Tracer C) × (up' : List (Tracer C))
        × (create_proxy args (t ∷ parent ∷ up)
            ≡ (ok q, record t' { graph = t'.graph ++ call args' ∷ [] } ∷ up'))
        × (length args' ≡ length args)
        × (q.tracer ≡ t.ident)
        × IsValid (record t' { graph = t'.graph ++ call args' ∷ [] } ∷ up')
  unfolding create_proxy add_node
  create_proxy-IsValid args t parent up h u =
      let l = lift_args_lem args t (parent ∷ up) h u in
      let own = subst (λ i. All (OwnArg i) l.lifted) (sym l.same_ident) l.own in
      (
        record { tracer = l.self.ident; node = length l.self.graph },
        l.lifted,
        l.self,
        l.parents,
        rw l.returns refl,
        l.same_length,
        l.same_ident,
        IsValid-call l.lifted l.self l.parents l.valid own,
      )

  -- A region that is opened in a valid chain makes a valid chain, whose current tracer is the
  -- region's and has nothing recorded.
  pub subtracer-IsValid :
      (ident : ℕ) (chain : List (Tracer C))
      → IsValid chain
      → IsValid (subtracer ident chain)
        × (current_tracer (subtracer ident chain)
            ≡ some (record { ident = ident; graph = []; lifted_freevars = [] }))
  unfolding subtracer current_tracer
  subtracer-IsValid ident chain h = (((tt, λ p q e. absurd (cc)), (λ p q e. absurd (cc), h)), refl)
