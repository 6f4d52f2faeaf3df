-- ===== src/SkillGateway/Atomic/Endings/Loop.antt =====
-- atomic.go: the end of the loop and what is made of it.
use claw_hermes_ai_go.Base.{
  ℕ, zero, suc, ◌+◌, ◌≡◌, refl, sym, ap, ◌∙◌, subst, ◌⊎◌, inl, inr, Bool, true, false, Option, none,
  some, List, [], ◌∷◌, ◌++◌, append-nil, append_assoc, arith, ltb, if◌then◌else◌, All, All-append,
  Bool-cases, Option-cases,
}
use claw_hermes_ai_go.SkillGateway.Types.{GoError, SkillRequest}
use claw_hermes_ai_go.SkillGateway.Breaker.{step}
use claw_hermes_ai_go.SkillGateway.Registry.{SkillProvider}
use claw_hermes_ai_go.SkillGateway.Atomic.{
  Environment, Answer, output, fails, Event, waits, calls, Ending, succeeded, timed_out, cancelled,
  cancelled_in_backoff, exhausted, Round, ends, again, judge, call, wait_and_call, round, attempts,
  settle, failure, AtomicEngine, max_attempts_of, delay_before, base_delay_of,
}
use claw_hermes_ai_go.SkillGateway.Atomic.Attempts.{calls_in, calls_in-append}
use claw_hermes_ai_go.SkillGateway.Atomic.Endings.{
  answer_at, Missed, LastError, Outcome, answered, out_of_time, stopped, stopped_in_backoff,
  used_up,
}

module _ (env : Environment) (p : SkillProvider) (req : SkillRequest) where
  -- A round ends at a done context, before or in its wait, or makes its call.
  abbrev RoundShape : ℕ → Round × List Event → Type 0
  RoundShape j r =
      ((c : GoError) × (env.ctx_err j ≡ some c) × (r ≡ (ends (cancelled c), [])))
      ⊎ ((c : GoError) × (d : ℕ) × (env.ctx_done_in_backoff j ≡ some c)
          × (r ≡ (ends (cancelled_in_backoff c), waits d ∷ [])))
      ⊎ ((ws : List Event) × All (Missed env p req) ws
          × (calls_in ws ≡ 0)
          × (r ≡ (judge env p req (answer_at env p req j), ws ++ calls j ∷ [])))

  round-RoundShape : (j : ℕ) → RoundShape j (round env p req j)
  unfolding round wait_and_call call calls_in
  round-RoundShape j = elim (Option-cases (env.ctx_err j)) [
    | inr (c, h) ↦ inl (c, h, rw (h, round) refl)
    | inl h ↦ elim (Bool-cases (ltb 0 j)) [
      | inr first ↦ inr (inr ([], tt, refl, rw (h, round) (rw first refl)))
      | inl later ↦ elim (Option-cases (env.ctx_done_in_backoff j)) [
        | inr (c, off) ↦ inr (
            inl (
              c,
              delay_before (base_delay_of req) j,
              off,
              rw (h, round) (rw later (rw (off, wait_and_call) refl)),
            ))
        | inl on ↦ inr (
            inr (
              waits (delay_before (base_delay_of req) j) ∷ [],
              (tt, tt),
              refl,
              rw (h, round) (rw later (rw (on, wait_and_call) refl)),
            ))
      ]
    ]
  ]

  attempts_end :
      (left j : ℕ) (last : Option GoError) (e : Ending) (es : List Event)
      → round env p req j ≡ (ends e, es)
      → attempts env p req (suc left) j last ≡ (e, es)
  unfolding attempts
  attempts_end left j last e es h =
      rw (h, attempts) (ap (λ es. (e, es)) (ap (λ (r : Round × List Event). r.1) h))

  attempts_go_on :
      (left j : ℕ) (last : Option GoError) (g : GoError) (es : List Event)
      → round env p req j ≡ (again g, es)
      → attempts env p req (suc left) j last ≡ (
        (attempts env p req left (j + 1) (some g)).0,
        es ++ (attempts env p req left (j + 1) (some g)).1,
      )
  unfolding attempts
  attempts_go_on left j last g es h =
      let rest = attempts env p req left (j + 1) (some g) in
      rw (h, attempts) (ap (λ es. (rest.0, es ++ rest.1)) (ap (λ (r : Round × List Event). r.1) h))

  none_in_wait : (d : ℕ) → calls_in (waits d ∷ []) ≡ 0
  unfolding calls_in
  none_in_wait d = refl

  judged :
      (g : GoError) (late : Bool)
      → g.is_deadline_exceeded ≡ late
      → judge env p req (fails g) ≡ (if late then ends (timed_out g) else again g)
  unfolding judge
  judged g late h = ap (λ b. if b then ends (timed_out g) else again g) h

  module _ (e : AtomicEngine) where
    -- What the settling makes of the end of a loop, behind some events.
    abbrev Settles : List Event → Ending × List Event → Type 0
    Settles seen (end, es) =
        Outcome env p req e.cb (seen ++ es) (settle env e p req end).1 (settle env e p req end).0.cb

    -- The last call, or the call before the next round.
    called-Settles :
        (left j : ℕ) (last : Option GoError) (seen ws : List Event) (a : Answer)
        → answer_at env p req j ≡ a
        → All (Missed env p req) (seen ++ ws)
        → round env p req j ≡ (judge env p req a, ws ++ calls j ∷ [])
        → ((g : GoError)
            → answer_at env p req j ≡ fails g
            → g.is_deadline_exceeded ≡ false
            → Settles (seen ++ (ws ++ calls j ∷ [])) (attempts env p req left (j + 1) (some g)))
        → Settles seen (attempts env p req (suc left) j last)
    unfolding settle failure judge step
    called-Settles left j last seen ws (output v) answer missed r later =
        subst (Settles seen) (sym (attempts_end left j last (succeeded v) (ws ++ calls j ∷ []) r)) (
          subst
            (λ es.
              Outcome env p req e.cb es (settle env e p req (succeeded v)).1
                (settle env e p req (succeeded v)).0.cb)
            (append_assoc seen ws (calls j ∷ [])) (answered (seen ++ ws) j v missed answer))
    called-Settles left j last seen ws (fails g) answer missed r later =
        elim (Bool-cases g.is_deadline_exceeded) [
          | inl late ↦
              subst (Settles seen)
                (sym (
                  attempts_end left j last (timed_out g) (ws ++ calls j ∷ [])
                    (r ∙ ap (λ x. (x, ws ++ calls j ∷ [])) (judged g true late))))
                (subst
                  (λ es.
                    Outcome env p req e.cb es (settle env e p req (timed_out g)).1
                      (settle env e p req (timed_out g)).0.cb)
                  (append_assoc seen ws (calls j ∷ []))
                  (out_of_time (seen ++ ws) j g missed answer late))
          | inr soon ↦
              subst (Settles seen)
                (sym (
                  attempts_go_on left j last g (ws ++ calls j ∷ [])
                    (r ∙ ap (λ x. (x, ws ++ calls j ∷ [])) (judged g false soon))))
                (subst
                  (λ es.
                    Outcome env p req e.cb es
                      (settle env e p req (attempts env p req left (j + 1) (some g)).0).1
                      (settle env e p req (attempts env p req left (j + 1) (some g)).0).0.cb)
                  (append_assoc seen (ws ++ calls j ∷ [])
                    (attempts env p req left (j + 1) (some g)).1)
                  (later g answer soon))
        ]

    attempts-Settles :
        (left j : ℕ) (last : Option GoError) (seen : List Event)
        → All (Missed env p req) seen
        → calls_in seen ≡ j
        → calls_in seen + left ≡ max_attempts_of req
        → LastError env p req seen last
        → Settles seen (attempts env p req left j last)
    unfolding settle failure attempts step calls_in
    attempts-Settles zero j last seen missed here count final =
        subst
          (λ es.
            Outcome env p req e.cb es (settle env e p req (exhausted last)).1
              (settle env e p req (exhausted last)).0.cb)
          (sym (append-nil seen)) (used_up seen last missed (omega (arith, count)) final)
    attempts-Settles (suc left) j last seen missed here count final = elim (round-RoundShape j) [
      | inl (c, off, r) ↦ subst (Settles seen) (sym (attempts_end left j last (cancelled c) [] r)) (
          subst
            (λ es.
              Outcome env p req e.cb es (settle env e p req (cancelled c)).1
                (settle env e p req (cancelled c)).0.cb)
            (sym (append-nil seen)) (stopped seen c missed (ap env.ctx_err here ∙ off)))
      | inr (inl (c, d, off, r)) ↦
          subst (Settles seen)
            (sym (attempts_end left j last (cancelled_in_backoff c) (waits d ∷ []) r))
            (stopped_in_backoff (seen ++ waits d ∷ []) c
              (All-append (Missed env p req) seen (waits d ∷ []) missed (tt, tt))
              (ap env.ctx_done_in_backoff
                  (omega (arith, here, calls_in-append seen (waits d ∷ []), none_in_wait d))
                ∙ off))
      | inr (inr (ws, ws_missed, none_called, r)) ↦
          called-Settles left j last seen ws (answer_at env p req j) refl
            (All-append (Missed env p req) seen ws missed ws_missed) r
            (λ g answer soon.
              let call_missed : All (Missed env p req) (calls j ∷ []) = ((g, answer, soon), tt) in
              attempts-Settles left (j + 1) (some g) (seen ++ (ws ++ calls j ∷ []))
                (All-append (Missed env p req) seen (ws ++ calls j ∷ []) missed
                  (All-append (Missed env p req) ws (calls j ∷ []) ws_missed call_missed))
                (omega (
                  arith,
                  calls_in-append seen (ws ++ calls j ∷ []),
                  calls_in-append ws (calls j ∷ []),
                  none_called,
                  here,
                ))
                (omega (
                  arith,
                  calls_in-append seen (ws ++ calls j ∷ []),
                  calls_in-append ws (calls j ∷ []),
                  none_called,
                  count,
                ))
                (seen ++ ws, j, sym (append_assoc seen ws (calls j ∷ [])), answer))
    ]

    pub loop-Outcome :
        let (end, es) = attempts env p req (max_attempts_of req) 0 none in
        Outcome env p req e.cb es (settle env e p req end).1 (settle env e p req end).0.cb
    unfolding calls_in
    loop-Outcome = attempts-Settles (max_attempts_of req) 0 none [] tt refl (omega arith) refl
