-- ===== src/Agent/Graph/Hops.antt =====
-- graph.go: the hops of a graph, and the walks that they make.
use claw_hermes_ai_go.Base.{
  ℕ, zero, suc, ◌≡◌, refl, ◌≢◌, ◌⊎◌, inl, inr, Option, none, some, String, str_eq, eq_iff,
  Bool-cases, Option-cases, some_inj, subst, ap, str_ne,
}
use claw_hermes_ai_go.Base.Dict.{lookup}
use claw_hermes_ai_go.Agent.Graph.{
  end_node, NodeOutcome, returns, panics, StateGraph, goes, next_node, leave, visit, enter, turn,
}

module _ {ℓ} {S Err : Type ℓ} (g : StateGraph S Err) where
  -- A node that is not the end runs without an error, and the run goes on: by the node's conditional
  -- edge if it has one, and by its static edge otherwise.
  pub record Hop (current : String) (s : S) (next : String) (s' : S) : Type ℓ where
    pub inside : current ≢ end_node
    pub node : S → NodeOutcome S Err
    pub registered : lookup current g.nodes ≡ some node
    pub runs : node s ≡ returns s' none
    pub leads :
        ((cond : S → String) × (lookup current g.cond_edges ≡ some cond) × (cond s' ≡ next))
        ⊎ ((lookup current g.cond_edges ≡ none) × (lookup current g.edges ≡ some next))

  -- A walk of `n` hops to the end, where the state is `final`.
  pub data Walk (final : S) : ℕ → String → S → Type ℓ where
    arrive : {current : String} {s : S} → current ≡ end_node → s ≡ final → Walk final zero current s
    hop :
        {n : ℕ} {current next : String} {s s' : S}
        → Hop current s next s'
        → Walk final n next s'
        → Walk final (suc n) current s

  abbrev Leads : String → S → String → Type ℓ
  Leads current s next =
      ((cond : S → String) × (lookup current g.cond_edges ≡ some cond) × (cond s ≡ next))
      ⊎ ((lookup current g.cond_edges ≡ none) × (lookup current g.edges ≡ some next))

  Leads-next :
      (current next : String) (s : S) → Leads current s next → next_node g current s ≡ some next
  unfolding next_node
  Leads-next current next s (inl (cond, h, e)) = rw (h, next_node) (ap some e)
  Leads-next current next s (inr (h, e)) = rw (h, next_node) e

  next-Leads :
      (current next : String) (s : S) → next_node g current s ≡ some next → Leads current s next
  unfolding next_node
  next-Leads current next s e = elim (Option-cases (lookup current g.cond_edges)) [
    | inr (cond, h) ↦ inl (cond, h, some_inj (rw (h, next_node) at e))
    | inl h ↦ inr (h, rw (h, next_node) at e)
  ]

  pub Hop-turn :
      {current next : String} {s s' : S}
      → Hop current s next s'
      → turn g none current s ≡ goes s' next
  unfolding turn enter visit leave
  Hop-turn {current} {next} {s} {s'} h =
      rw (str_ne current end_node h.inside)
        (rw h.registered (rw h.runs (rw (Leads-next current next s' h.leads) refl)))

  leave-goes :
      (current next : String) (s s' : S) (o : Option String)
      → leave g current s o ≡ goes s' next
      → (s ≡ s') × (o ≡ some next)
  unfolding leave
  leave-goes current next s s' none e = absurd (cc)
  leave-goes current next s s' (some n) e = (cc, cc)

  visit-goes :
      (current next : String) (s s' : S) (o : NodeOutcome S Err)
      → visit g current s o ≡ goes s' next
      → (o ≡ returns s' none) × (next_node g current s' ≡ some next)
  unfolding visit
  visit-goes current next s s' (panics what) e = absurd (cc)
  visit-goes current next s s' (returns t (some x)) e = absurd (cc)
  visit-goes current next s s' (returns t none) e =
      let (same, leads) = leave-goes current next t s' (next_node g current t) e in
      (ap (λ x. returns x none) same, subst (λ x. next_node g current x ≡ some next) same leads)

  enter-goes :
      (current next : String) (s s' : S) (o : Option (S → NodeOutcome S Err))
      → enter g current s o ≡ goes s' next
      → (node : S → NodeOutcome S Err) × (o ≡ some node)
        × (node s ≡ returns s' none)
        × (next_node g current s' ≡ some next)
  unfolding enter
  enter-goes current next s s' none e = absurd (cc)
  enter-goes current next s s' (some fn) e =
      let (runs, leads) = visit-goes current next s s' (fn s) e in (fn, refl, runs, leads)

  pub turn-Hop :
      (ended : Option Err) (current next : String) (s s' : S)
      → turn g ended current s ≡ goes s' next
      → Hop current s next s'
  unfolding turn
  turn-Hop (some x) current next s s' e = absurd (elim (Bool-cases (str_eq current end_node)) [
    | inl at_end ↦ cc (rw at_end at e)
    | inr inside ↦ cc (rw inside at e)
  ])
  turn-Hop none current next s s' e = elim (Bool-cases (str_eq current end_node)) [
    | inl at_end ↦ absurd (cc (rw at_end at e))
    | inr inside ↦
        let (fn, registered, runs, leads) =
          enter-goes current next s s' (lookup current g.nodes) (rw inside at e) in
        record {
          inside = λ p. cc (inside, (eq_iff current end_node).1 p);
          node = fn;
          registered = registered;
          runs = runs;
          leads = next-Leads current next s' leads;
        }
  ]
