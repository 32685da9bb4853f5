-- ===== src/Execution/Unfilled.antt =====
-- The compensation of a step whose order was accepted and not filled.
use mathlib.Core.List.{reverse, reverse_aux, append_assoc, append-nil}
use opensqt_market_maker.Common.{
  ◌≡◌, refl, sym, ap, ap₂, subst, ◌∙◌, ◌⊎◌, true, false, inl, inr, some, List, [], ◌∷◌, ◌++◌,
  String, map, In, In-append_left, In-append_right,
}
use opensqt_market_maker.Num.{Num, is_zero}
use opensqt_market_maker.Pb.{Order, PlaceOrderRequest}
use opensqt_market_maker.Pb.Convert.{to_go_decimal}
use opensqt_market_maker.Execution.{
  Step, ExecutedStep, Call, Answer, rejects, failed, call_of, has_exchange, adjust_qty,
  compensation_qty, compensation, compensations, execute_from, execute,
}
use opensqt_market_maker.Execution.Saga.{calls_of, AllAccepted, step_accepted, step_rejected}

In-reverse_aux :
    {A : Type 0} (a : A) (xs ys : List A) → In a xs ⊎ In a ys → In a (reverse_aux xs ys)
In-reverse_aux a [] ys (inl h) = absurd h
In-reverse_aux a [] ys (inr h) = h
In-reverse_aux a (x ∷ xs) ys (inl (inl e)) = In-reverse_aux a xs (x ∷ ys) (inr (inl e))
In-reverse_aux a (x ∷ xs) ys (inl (inr h)) = In-reverse_aux a xs (x ∷ ys) (inl h)
In-reverse_aux a (x ∷ xs) ys (inr h) = In-reverse_aux a xs (x ∷ ys) (inr (inr h))

In-reverse : {A : Type 0} (a : A) (xs : List A) → In a xs → In a (reverse xs)
In-reverse a xs h = In-reverse_aux a xs [] (inl h)

module _ (n : Num) where
  -- The quantity that was asked for is compensated, although nothing was executed.
  compensation-unfilled :
      (exchange : String) (c : PlaceOrderRequest) (o : Order) (text : String)
      → o.executed_qty ≡ some text
      → is_zero n (to_go_decimal n (some text)) ≡ true
      → is_zero n (to_go_decimal n c.quantity) ≡ false
      → compensation n exchange (some c) (some o) ≡ (exchange, c) ∷ []
  unfolding compensation compensation_qty
  compensation-unfilled exchange c o text e z q =
      let qty : adjust_qty n c.quantity o.executed_qty ≡ c.quantity =
        ap (adjust_qty n c.quantity) e ∙ (unfold adjust_qty in rw z refl) in
      rw (qty, q) refl

  reversed-In :
      (e : ExecutedStep) (x : Call) (executed : List ExecutedStep)
      → In e executed
      → compensation n e.step.exchange e.step.compensate e.order ≡ x ∷ []
      → In x (compensations n executed)
  unfolding compensations
  reversed-In e x [] h c = absurd h
  reversed-In e x (y ∷ executed) (inl same) c =
      let comp : ExecutedStep → List Call =
        λ z. compensation n z.step.exchange z.step.compensate z.order in
      In-append_left x (comp y) (compensations n executed)
        (subst (In x) (sym (ap comp (sym same) ∙ c)) (inl refl))
  reversed-In e x (y ∷ executed) (inr h) c =
      In-append_right x (compensation n y.step.exchange y.step.compensate y.order)
        (compensations n executed) (reversed-In e x executed h c)

  module _ (exchanges : List String) (env : List Call → Answer) where
    -- The steps that are accepted come before the rest.
    accepted_first :
        (first before : List ExecutedStep) (steps : List Step) (log : List Call)
        → AllAccepted n exchanges env log first
        → execute_from n exchanges env (map (λ e. e.step) first ++ steps) before log
          ≡ execute_from n exchanges env steps (before ++ first) (log ++ calls_of first)
    accepted_first [] before steps log h =
        ap₂ (execute_from n exchanges env steps) (sym (append-nil before)) (sym (append-nil log))
    accepted_first (e ∷ first) before steps log (k, a, h) =
        step_accepted n exchanges env e.step (map (λ x. x.step) first ++ steps) before log k e.order
          a
        ∙ accepted_first first (before ++ e ∷ []) steps (log ++ call_of e.step ∷ []) h
        ∙ ap₂ (execute_from n exchanges env steps) (append_assoc before (e ∷ []) first)
            (append_assoc log (call_of e.step ∷ []) (calls_of first))

    -- When a step is rejected after others were accepted, Execute fails, and its last calls undo the
    -- accepted ones. Among them is, for each accepted step whose order has an executed quantity of
    -- zero, its compensation with the whole quantity that it names, if that is not zero: the order
    -- of the step may rest on the exchange, and the compensation opens a position.
    pub unfilled_reversed :
        (first : List ExecutedStep) (s : Step) (rest : List Step) (log : List Call)
        → AllAccepted n exchanges env log first
        → has_exchange s.exchange exchanges ≡ true
        → env ((log ++ calls_of first) ++ call_of s ∷ []) ≡ rejects
        → (undo : List Call) × (execute n exchanges env (map (λ e. e.step) first ++ s ∷ rest) log
            ≡ (((log ++ calls_of first) ++ call_of s ∷ []) ++ undo, failed))
          × ((e : ExecutedStep) (c : PlaceOrderRequest) (o : Order) (text : String)
              → In e first
              → e.step.compensate ≡ some c
              → is_zero n (to_go_decimal n c.quantity) ≡ false
              → e.order ≡ some o
              → o.executed_qty ≡ some text
              → is_zero n (to_go_decimal n (some text)) ≡ true
              → In (e.step.exchange, c) undo)
    unfolding execute
    unfilled_reversed first s rest log h k r = (
      compensations n (reverse first),
      accepted_first first [] (s ∷ rest) log h
          ∙ step_rejected n exchanges env s rest first (log ++ calls_of first) k r,
      λ e c o text m sc q eo x z.
          reversed-In e (e.step.exchange, c) (reverse first) (In-reverse e first m)
            (ap₂ (compensation n e.step.exchange) sc eo
              ∙ compensation-unfilled e.step.exchange c o text x z q),
    )
