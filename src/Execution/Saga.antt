-- ===== src/Execution/Saga.antt =====
-- SequenceExecutor.Execute against its description: all steps, or their compensations.
use mathlib.Core.List.{reverse, append_assoc, append-nil}
use opensqt_market_maker.Common.{
  ◌≡◌, refl, sym, ap, subst, ◌∙◌, ◌⊎◌, true, false, Bool-cases, inl, inr, Option, List, [], ◌∷◌,
  ◌++◌, String, map,
}
use opensqt_market_maker.Num.{Num}
use opensqt_market_maker.Pb.{Order}
use opensqt_market_maker.Execution.{
  Step, ExecutedStep, Call, Answer, rejects, accepts, Outcome, done, failed, panicked, call_of,
  has_exchange, compensations, compensate_all, after_answer, execute_from, execute,
}

-- The calls of the steps that were executed.
abbrev pub calls_of : List ExecutedStep → List Call
calls_of = map (λ e. call_of e.step)

module _ (n : Num) (exchanges : List String) (env : List Call → Answer) where
  -- Each step went to a known exchange, which accepted it after the calls before it.
  abbrev pub AllAccepted : List Call → List ExecutedStep → Type 0
  AllAccepted log [] = Unit
  AllAccepted log (e ∷ executed) =
      (has_exchange e.step.exchange exchanges ≡ true)
      × (env (log ++ call_of e.step ∷ []) ≡ accepts e.order)
      × AllAccepted (log ++ call_of e.step ∷ []) executed

  -- What the execution of `steps` does after the calls `log`, when the steps `before` have been
  -- executed: it makes the calls `made`, and ends.
  pub data Saga (before : List ExecutedStep) (steps : List Step) (log made : List Call)
      : Outcome → Type 0 where
    completed :
        (all : List ExecutedStep)
        → steps ≡ map (λ e. e.step) all
        → AllAccepted log all
        → made ≡ calls_of all
        → Saga before steps log made done
    undone :
        (first : List ExecutedStep) (s : Step) (rest : List Step)
        → steps ≡ map (λ e. e.step) first ++ s ∷ rest
        → AllAccepted log first
        → env (log ++ (calls_of first ++ call_of s ∷ [])) ≡ rejects
        → made ≡ (calls_of first ++ call_of s ∷ []) ++ compensations n (reverse (before ++ first))
        → Saga before steps log made failed
    crashed :
        (first : List ExecutedStep) (s : Step) (rest : List Step)
        → steps ≡ map (λ e. e.step) first ++ s ∷ rest
        → AllAccepted log first
        → has_exchange s.exchange exchanges ≡ false
        → made ≡ calls_of first
        → Saga before steps log made panicked

  -- A run that makes certain calls after `log`.
  abbrev Runs : List ExecutedStep → List Step → List Call → List Call × Outcome → Type 0
  Runs before steps log r =
      (made : List Call) × (r.0 ≡ log ++ made) × Saga before steps log made r.1

  -- The first step was accepted.
  Saga-cons :
      (before : List ExecutedStep) (e : ExecutedStep) (steps : List Step) (log made : List Call)
      (o : Outcome)
      → has_exchange e.step.exchange exchanges ≡ true
      → env (log ++ call_of e.step ∷ []) ≡ accepts e.order
      → Saga (before ++ e ∷ []) steps (log ++ call_of e.step ∷ []) made o
      → Saga before (e.step ∷ steps) log (call_of e.step ∷ made) o
  Saga-cons before e steps log made done k a (completed all s h m) =
      completed (e ∷ all) (ap (◌∷◌ e.step) s) (k, a, h) (ap (◌∷◌ (call_of e.step)) m)
  Saga-cons before e steps log made failed k a (undone first t rest s h r m) =
      undone (e ∷ first) t rest (ap (◌∷◌ e.step) s) (k, a, h)
        (ap env (sym (append_assoc log (call_of e.step ∷ []) (calls_of first ++ call_of t ∷ [])))
          ∙ r)
        (ap (◌∷◌ (call_of e.step)) (
          m
          ∙ ap (λ l. (calls_of first ++ call_of t ∷ []) ++ compensations n (reverse l))
              (append_assoc before (e ∷ []) first)))
  Saga-cons before e steps log made panicked k a (crashed first t rest s h r m) =
      crashed (e ∷ first) t rest (ap (◌∷◌ e.step) s) (k, a, h) r (ap (◌∷◌ (call_of e.step)) m)

  -- A step of a known exchange, for both of its answers.
  module _ (s : Step) (steps : List Step) (before : List ExecutedStep) (log : List Call)
      (known : has_exchange s.exchange exchanges ≡ true) where
    pub step_rejected :
        env (log ++ call_of s ∷ []) ≡ rejects
        → execute_from n exchanges env (s ∷ steps) before log
          ≡ ((log ++ call_of s ∷ []) ++ compensations n (reverse before), failed)
    unfolding execute_from after_answer compensate_all
    step_rejected e = rw (known, e) refl

    pub step_accepted :
        (o : Option Order)
        → env (log ++ call_of s ∷ []) ≡ accepts o
        → execute_from n exchanges env (s ∷ steps) before log
          ≡ execute_from n exchanges env steps
              (before ++ record { step = s; order = o } ∷ [])
              (log ++ call_of s ∷ [])
    unfolding execute_from after_answer
    step_accepted o e = rw (known, e) refl

  Answer-cases : (a : Answer) → (a ≡ rejects) ⊎ ((o : Option Order) × (a ≡ accepts o))
  Answer-cases rejects = inl refl
  Answer-cases (accepts o) = inr (o, refl)

  execute_from-Saga :
      (steps : List Step) (before : List ExecutedStep) (log : List Call)
      → Runs before steps log (execute_from n exchanges env steps before log)
  unfolding execute_from
  execute_from-Saga [] before log = ([], sym (append-nil log), completed [] refl tt refl)
  execute_from-Saga (s ∷ steps) before log = elim (Bool-cases (has_exchange s.exchange exchanges)) [
    | inr unknown ↦ rw unknown ([], sym (append-nil log), crashed [] s steps refl tt unknown refl)
    | inl known ↦ elim (Answer-cases (env (log ++ call_of s ∷ []))) [
      | inl e ↦
          let comp = compensations n (reverse before) in
          subst (Runs before (s ∷ steps) log) (sym (step_rejected s steps before log known e)) (
            call_of s ∷ comp,
            append_assoc log (call_of s ∷ []) comp,
            undone [] s steps refl tt e
                (ap (λ l. call_of s ∷ compensations n (reverse l)) (sym (append-nil before))),
          )
      | inr (o, e) ↦
          let x : ExecutedStep = record { step = s; order = o } in
          let log' = log ++ call_of s ∷ [] in
          let (made, calls, saga) = execute_from-Saga steps (before ++ x ∷ []) log' in
          subst (Runs before (s ∷ steps) log) (sym (step_accepted s steps before log known o e)) (
            call_of s ∷ made,
            calls ∙ append_assoc log (call_of s ∷ []) made,
            Saga-cons before x steps log made _ known e saga,
          )
    ]
  ]

  -- Execute does what its description says, whatever the exchanges answer: it makes the calls of all
  -- steps, each of which is accepted; or those of the steps before one that is rejected, this one,
  -- and then the compensations of the steps before it, from the last to the first; or it panics at
  -- a step whose exchange is unknown, and compensates nothing.
  pub execute-Saga :
      (steps : List Step) (log : List Call)
      → (made : List Call) × ((execute n exchanges env steps log).0 ≡ log ++ made)
        × Saga [] steps log made (execute n exchanges env steps log).1
  unfolding execute
  execute-Saga steps log = execute_from-Saga steps [] log
