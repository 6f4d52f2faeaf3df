-- ===== src/Agent/Graph/Paths.antt =====
-- graph.go: a run of `Invoke` against the walks of the graph.
use claw_hermes_ai_go.Base.{
  ℕ, zero, suc, ◌+◌, ◌<◌, ◌≤◌, ◌≡◌, refl, ◌≢◌, ◌⊎◌, inl, inr, Option, none, some, String, arith,
  str_eq, eq_iff, ltb, ltb→lt, Bool-cases, ◌∙◌, sym, ap,
}
use claw_hermes_ai_go.Base.Dict.{lookup}
use claw_hermes_ai_go.Agent.Graph.{
  end_node, NodeOutcome, returns, panics, GraphError, max_steps_reached, context_done, StateGraph,
  RunConfig, Turn, stops, goes, next_node, leave, visit, enter, turn, loop, invoke, max_steps_of,
}
use claw_hermes_ai_go.Agent.Graph.Hops.{Hop, Walk, arrive, hop, Hop-turn, turn-Hop}

module _ {ℓ} {S Err : Type ℓ} (g : StateGraph S Err) where
  leave-fails :
      (current : String) (s s' : S) (o : Option String) → leave g current s o ≢ stops s' none
  unfolding leave
  leave-fails current s s' none e = cc
  leave-fails current s s' (some n) e = cc

  visit-fails :
      (current : String) (s s' : S) (o : NodeOutcome S Err) → visit g current s o ≢ stops s' none
  unfolding visit
  visit-fails current s s' (panics what) e = cc
  visit-fails current s s' (returns t (some x)) e = cc
  visit-fails current s s' (returns t none) e = leave-fails current t s' (next_node g current t) e

  enter-fails :
      (current : String) (s s' : S) (o : Option (S → NodeOutcome S Err))
      → enter g current s o ≢ stops s' none
  unfolding enter
  enter-fails current s s' none e = cc
  enter-fails current s s' (some fn) e = visit-fails current s s' (fn s) e

  turn-ends :
      (ended : Option Err) (current : String) (s s' : S)
      → turn g ended current s ≡ stops s' none
      → (current ≡ end_node) × (s ≡ s')
  unfolding turn
  turn-ends ended current s s' e = elim (Bool-cases (str_eq current end_node)) [
    | inl at_end ↦ ((eq_iff current end_node).0 at_end, cc (rw at_end at e))
    | inr inside ↦ absurd (by_context ended (rw inside at e))
  ]
    where
      by_context :
          (x : Option Err)
          → elim x as (λ y. Turn S Err) [
            | some y ↦ stops s (some (context_done y))
            | none ↦ enter g current s (lookup current g.nodes)
          ]
            ≢ stops s' none
      by_context none h = enter-fails current s s' (lookup current g.nodes) h
      by_context (some y) h = cc

  Turn-cases :
      (t : Turn S Err)
      → ((s : S) × (e : Option (GraphError Err)) × (t ≡ stops s e))
        ⊎ ((s : S) × (next : String) × (t ≡ goes s next))
  Turn-cases (stops s e) = inl (s, e, refl)
  Turn-cases (goes s next) = inr (s, next, refl)

  module _ (ctx : ℕ → Option Err) (max : ℕ) where
    loop-stops :
        (left i : ℕ) (current : String) (s s' : S) (e : Option (GraphError Err))
        → turn g (ctx i) current s ≡ stops s' e
        → loop g ctx max (suc left) i current s ≡ (s', e)
    unfolding loop
    loop-stops left i current s s' e h = rw (h, loop) refl

    loop-goes :
        (left i : ℕ) (current next : String) (s s' : S)
        → turn g (ctx i) current s ≡ goes s' next
        → loop g ctx max (suc left) i current s ≡ loop g ctx max left (i + 1) next s'
    unfolding loop
    loop-goes left i current next s s' h = rw (h, loop) refl

    loop-zero :
        (i : ℕ) (current : String) (s : S)
        → loop g ctx max zero i current s ≡ (s, some (max_steps_reached max))
    unfolding loop
    loop-zero i current s = refl

    loop-Walk :
        (left i : ℕ) (current : String) (s final : S)
        → loop g ctx max left i current s ≡ (final, none)
        → (n : ℕ) × (n < left) × Walk g final n current s
    loop-Walk zero i current s final e = absurd (cc (loop-zero i current s, e))
    loop-Walk (suc left) i current s final e = elim (Turn-cases (turn g (ctx i) current s)) [
      | inl (t, x, h) ↦
          let r = sym (loop-stops left i current s t x h) ∙ e in
          let clean : turn g (ctx i) current s ≡ stops final none = cc (h, r) in
          let (ended, same) = turn-ends (ctx i) current s final clean in
          (0, omega arith, arrive ended same)
      | inr (t, next, h) ↦
          let (n, lt, walk) =
            loop-Walk left (i + 1) next t final (sym (loop-goes left i current next s t h) ∙ e) in
          (suc n, omega arith, hop (turn-Hop g (ctx i) current next s t h) walk)
    ]

    turn-arrived :
        (ended : Option Err) (current : String) (s : S)
        → current ≡ end_node
        → turn g ended current s ≡ stops s none
    unfolding turn
    turn-arrived ended current s e = rw ((eq_iff current end_node).1 e) refl

    module _ (live : (i : ℕ) → ctx i ≡ none) where
      live-Hop :
          (i : ℕ) {current next : String} {s s' : S}
          → Hop g current s next s'
          → turn g (ctx i) current s ≡ goes s' next
      live-Hop i h = rw (live i) (Hop-turn g h)

      Walk-loop :
          (left i : ℕ) {n : ℕ} {current : String} {s final : S}
          → Walk g final n current s
          → n < left
          → loop g ctx max left i current s ≡ (final, none)
      Walk-loop zero i walk lt = absurd (omega arith)
      Walk-loop (suc left) i {current = c} {s = s} (arrive ended same) lt =
          loop-stops left i c s s none (turn-arrived (ctx i) c s ended) ∙ ap (λ x. (x, none)) same
      Walk-loop (suc left) i (hop {current = c} {next = d} {s = s} {s' = t} h walk) lt =
          loop-goes left i c d s t (live-Hop i h) ∙ Walk-loop left (i + 1) walk (omega arith)

      Walk-runs_out :
          (left i : ℕ) {n : ℕ} {current : String} {s final : S}
          → Walk g final n current s
          → left ≤ n
          → (loop g ctx max left i current s).1 ≡ some (max_steps_reached max)
      Walk-runs_out zero i walk le = unfold loop in refl
      Walk-runs_out (suc left) i (arrive ended same) le = absurd (omega arith)
      Walk-runs_out (suc left) i (hop {current = c} {next = d} {s = s} {s' = t} h walk) le =
          ap (λ r. r.1) (loop-goes left i c d s t (live-Hop i h))
          ∙ Walk-runs_out left (i + 1) walk (omega arith)

-- A run that succeeds has followed a walk from the entry to the end, with fewer hops than its steps,
-- and returns the state at which the walk ends.
pub invoke-Walk {ℓ} :
    {S Err : Type ℓ} (g : StateGraph S Err) (ctx : ℕ → Option Err) (initial final : S)
    (cfg : RunConfig)
    → invoke g ctx initial cfg ≡ (final, none)
    → (n : ℕ) × (n < max_steps_of cfg) × Walk g final n g.entry initial
unfolding invoke
invoke-Walk g ctx initial final cfg e =
    loop-Walk g ctx (max_steps_of cfg) (max_steps_of cfg) 0 g.entry initial final e

-- Where a walk of `n` hops leads from the entry to the end and the context is never done, the run
-- returns the final state if `n` is below the number of steps, and otherwise fails for the number of
-- steps; so a walk of exactly that many hops fails, though its last hop leads to the end.
pub Walk-invoke {ℓ} :
    {S Err : Type ℓ} (g : StateGraph S Err) (ctx : ℕ → Option Err) (initial final : S)
    (cfg : RunConfig) (n : ℕ)
    → ((i : ℕ) → ctx i ≡ none)
    → Walk g final n g.entry initial
    → ((n < max_steps_of cfg) × (invoke g ctx initial cfg ≡ (final, none)))
      ⊎ ((max_steps_of cfg ≤ n)
          × ((invoke g ctx initial cfg).1 ≡ some (max_steps_reached (max_steps_of cfg))))
unfolding invoke
Walk-invoke g ctx initial final cfg n live walk = elim (Bool-cases (ltb n (max_steps_of cfg))) [
  | inl e ↦ inl (
    ltb→lt n (max_steps_of cfg) e,
    Walk-loop g ctx (max_steps_of cfg) live (max_steps_of cfg) 0 walk
        (ltb→lt n (max_steps_of cfg) e),
  )
  | inr e ↦
      let le : max_steps_of cfg ≤ n = ground arith in
      inr (le, Walk-runs_out g ctx (max_steps_of cfg) live (max_steps_of cfg) 0 walk le)
]
