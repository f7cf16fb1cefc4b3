-- ===== src/Workflow/Progress.antt =====
-- An execution can always still end in success.
use psr_pl.Base.{String, Bool, true, false, some, ◌≡◌, inl, inr, refl, ap, arith}
use psr_pl.Go.{ok}
use psr_pl.Http.{HttpClient}
use psr_pl.Pricing.Model.{WorkflowInput, OfferOption, Decision, WorkflowState}
use psr_pl.Pricing.Decision.{decide}
use psr_pl.Pricing.Bureau.{simulated_credit_pull}
use psr_pl.OfferSelection.Service.{find_offer}
use psr_pl.Workflow.Steps.{soft_pull, hard_pull, pricing_calculation, decision_routing}
use psr_pl.Workflow.Effects.{update_status}
use psr_pl.Workflow.Machine.{
  StateName, soft_pull_request, pricing_calculation_task, await_offer_selection,
  consent_given_check, consent_declined, hard_pull_request, decision_routing_task,
  update_application_status, Execution, running, succeeded, consent, answered, declined, initial,
  Step, soft_pulled, priced, selected, consented, refused, recorded, hard_pulled, decided, updated,
  Reach, here, next,
}
use psr_pl.Workflow.Invariant.{offers_for, hard_pull_for, HoldsIn, Reach-Holds, initial-Holds}

module _ {N : Type 0} (http : HttpClient N) (base_url : String) where
  Reach-first :
      {e f g : Execution}
      → Step http base_url e f
      → Reach http base_url f g
      → Reach http base_url e g
  Reach-first s here = next here s
  Reach-first s (next r t) = next (Reach-first s r) t

  -- The execution can reach a success.
  abbrev pub CanSucceed : Execution → Type 0
  CanSucceed e = (t : WorkflowState) × Reach http base_url e (succeeded t)

  then_succeeds : {e f : Execution} → Step http base_url e f → CanSucceed f → CanSucceed e
  then_succeeds s (t, r) = (t, Reach-first s r)

  -- application-management-service accepts a status update for the application of the input,
  -- whatever the decision, at some state of the network.
  abbrev pub Accepts : WorkflowInput → Type 0
  Accepts input =
      (s : WorkflowState) (d : Decision)
      → s.input ≡ input
      → s.decision ≡ some d
      → (t : WorkflowState) × (n : N) × ((update_status http base_url s n).0 ≡ ok t)

  module _ (input : WorkflowInput) (accepts : Accepts input) where
    from_update :
        (s : WorkflowState) (d : Decision)
        → s.input ≡ input
        → s.decision ≡ some d
        → CanSucceed (running update_application_status s)
    from_update s d own e =
        let (t, n, done) = accepts s d own e in (s, next here (updated s t n done))

    from_declined : (s : WorkflowState) → s.input ≡ input → CanSucceed (running consent_declined s)
    from_declined s own =
        then_succeeds (recorded s)
          (from_update (record s { decision = some declined }) declined own refl)

    from_decision :
        (s : WorkflowState)
        → HoldsIn input decision_routing_task s
        → CanSucceed (running decision_routing_task s)
    unfolding decision_routing
    from_decision s (own, pull, a) =
        let d : Decision = decide (a.offer).priced (hard_pull_for input) in
        then_succeeds (decided s d (ground (arith, a.selection)))
          (from_update (record s { decision = some d }) d own refl)

    from_hard_pull :
        (s : WorkflowState)
        → HoldsIn input hard_pull_request s
        → CanSucceed (running hard_pull_request s)
    unfolding hard_pull
    from_hard_pull s (own, no_pull, a) =
        then_succeeds (hard_pulled s (hard_pull_for input) (ground (arith))) (
          from_decision (record s { hard_pull = some (hard_pull_for input) })
            (
              own,
              refl,
              record { id = a.id; offer = a.offer; among = a.among; selection = a.selection },
            ))

    from_check :
        (s : WorkflowState)
        → HoldsIn input consent_given_check s
        → CanSucceed (running consent_given_check s)
    from_check s (own, no_pull, true, a) =
        then_succeeds (consented s (ap consent a.selection)) (from_hard_pull s (own, no_pull, a))
    from_check s (own, no_pull, false, a) =
        then_succeeds (refused s (ap consent a.selection)) (from_declined s own)

    module _ (given : Bool) (id : String) (o : OfferOption)
        (among : find_offer (offers_for input) id ≡ ok o) where
      from_selection :
          (s : WorkflowState)
          → HoldsIn input await_offer_selection s
          → CanSucceed (running await_offer_selection s)
      from_selection s (own, no_pull, offers) =
          then_succeeds (selected s id o given (rw offers among)) (
            from_check (record s { offer_selection = some (answered given o) })
              (own, no_pull, given, record { id = id; offer = o; among = among; selection = refl }))

      from_pricing :
          (s : WorkflowState)
          → HoldsIn input pricing_calculation_task s
          → CanSucceed (running pricing_calculation_task s)
      unfolding pricing_calculation
      from_pricing s (own, no_pull, pull) =
          then_succeeds (priced s (offers_for input) (ground arith))
            (from_selection (record s { priced_offers = offers_for input }) (own, no_pull, refl))

      from_start :
          (s : WorkflowState)
          → HoldsIn input soft_pull_request s
          → CanSucceed (running soft_pull_request s)
      unfolding soft_pull
      from_start s (own, no_pull) =
          let c = simulated_credit_pull input.application_id "SOFT_PULL" in
          then_succeeds (soft_pulled s c (ground arith))
            (from_pricing (record s { soft_pull = some c }) (own, no_pull, refl))

      holds_succeeds :
          (n : StateName) (s : WorkflowState) → HoldsIn input n s → CanSucceed (running n s)
      holds_succeeds soft_pull_request s h = from_start s h
      holds_succeeds pricing_calculation_task s h = from_pricing s h
      holds_succeeds await_offer_selection s h = from_selection s h
      holds_succeeds consent_given_check s h = from_check s h
      holds_succeeds consent_declined s h = from_declined s h.0
      holds_succeeds hard_pull_request s h = from_hard_pull s h
      holds_succeeds decision_routing_task s h = from_decision s h
      holds_succeeds update_application_status s (own, inl r) = from_update s declined own r.outcome
      holds_succeeds update_application_status s (own, inr d) = from_update s _ own d.outcome

      -- As long as an execution is running, in whichever state, some continuation of it succeeds, if
      -- an offer can be found among those priced for its input and if
      -- application-management-service accepts the status update of every decision for the input's
      -- application, each at some state of the network.
      pub running_succeeds :
          (n : StateName) (s : WorkflowState)
          → Reach http base_url (initial input) (running n s)
          → CanSucceed (running n s)
      running_succeeds n s r =
          holds_succeeds n s (Reach-Holds http base_url input r (initial-Holds http base_url input))
