-- ===== src/Workflow/Counted.antt =====
-- After how many steps an execution of the state machine is where.
use psr_pl.Base.{String, ℕ, ◌+◌, ◌≤◌, Bool, true, false, ◌≡◌, ◌⊎◌, refl, arith}
use psr_pl.Http.{HttpClient}
use psr_pl.Pricing.Model.{WorkflowInput, WorkflowState}
use psr_pl.Workflow.Machine.{
  StateName, soft_pull_request, pricing_calculation_task, await_offer_selection,
  consent_given_check, consent_declined, hard_pull_request, decision_routing_task,
  update_application_status, Execution, running, succeeded, failed, consent, initial, Step,
  soft_pulled, priced, selected, consented, refused, recorded, hard_pulled, decided, updated, broke,
  Reach, here, next,
}

-- The applicant answered so, and that many steps were made.
abbrev Answered : WorkflowState → Bool → ℕ → ℕ → Type 0
Answered s given n made = (consent s.offer_selection ≡ given) × (n ≡ made)

-- What the number of steps is in each state, by the applicant's consent from the answer on.
abbrev pub IsAfter : Execution → ℕ → Type 0
IsAfter (running soft_pull_request s) n = n ≡ 0
IsAfter (running pricing_calculation_task s) n = n ≡ 1
IsAfter (running await_offer_selection s) n = n ≡ 2
IsAfter (running consent_given_check s) n = n ≡ 3
IsAfter (running consent_declined s) n = Answered s false n 4
IsAfter (running hard_pull_request s) n = Answered s true n 4
IsAfter (running decision_routing_task s) n = Answered s true n 5
IsAfter (running update_application_status s) n = Answered s false n 5 ⊎ Answered s true n 6
IsAfter (succeeded s) n = Answered s false n 6 ⊎ Answered s true n 7
IsAfter failed n = (1 ≤ n) × (n ≤ 7)

running_bound : (name : StateName) (s : WorkflowState) (n : ℕ) → IsAfter (running name s) n → n ≤ 6
running_bound soft_pull_request s n a = ground (arith, a)
running_bound pricing_calculation_task s n a = ground (arith, a)
running_bound await_offer_selection s n a = ground (arith, a)
running_bound consent_given_check s n a = ground (arith, a)
running_bound consent_declined s n a = ground (arith, a)
running_bound hard_pull_request s n a = ground (arith, a)
running_bound decision_routing_task s n a = ground (arith, a)
running_bound update_application_status s n a = ground (arith, a)

IsAfter-bound : (e : Execution) (n : ℕ) → IsAfter e n → n ≤ 7
IsAfter-bound (running name s) n a = ground (arith, running_bound name s n a)
IsAfter-bound (succeeded s) n a = ground (arith, a)
IsAfter-bound failed n a = a.1

module _ {N : Type 0} (http : HttpClient N) (base_url : String) where
  -- The number of steps.
  unfoldable pub steps : {e f : Execution} → Reach http base_url e f → ℕ
  steps here = 0
  steps (next r s) = 1 + steps r

  Step-IsAfter :
      {e f : Execution} (n : ℕ) → Step http base_url e f → IsAfter e n → IsAfter f (1 + n)
  Step-IsAfter n (soft_pulled s c h) a = ground (arith, a)
  Step-IsAfter n (priced s offers h) a = ground (arith, a)
  Step-IsAfter n (selected s id o given h) a = ground (arith, a)
  Step-IsAfter n (consented s h) a = ground (arith, a)
  Step-IsAfter n (refused s h) a = ground (arith, a)
  Step-IsAfter n (recorded s) a = ground (arith, a)
  Step-IsAfter n (hard_pulled s c h) a = ground (arith, a)
  Step-IsAfter n (decided s d h) a = ground (arith, a)
  Step-IsAfter n (updated s t m h) a = ground (arith, a)
  Step-IsAfter n (broke name s) a = ground (arith, running_bound name s n a)

  Reach-IsAfter :
      {e f : Execution} (r : Reach http base_url e f) → IsAfter e 0 → IsAfter f (steps r)
  unfolding steps
  Reach-IsAfter here a = a
  Reach-IsAfter (next r s) a = Step-IsAfter (steps r) s (Reach-IsAfter r a)

  -- From the start each state is reached after a fixed number of steps, which the consent decides
  -- where the two branches meet: a success after seven, or after six if the hard pull was refused. No
  -- more than seven steps can be made, a failure included. (Steps are counted, not the time that is
  -- spent in a state.)
  pub steps_bound :
      {input : WorkflowInput} {e : Execution} (r : Reach http base_url (initial input) e)
      → IsAfter e (steps r) × (steps r ≤ 7)
  steps_bound {e = e} r =
      let after = Reach-IsAfter r refl in (after, IsAfter-bound e (steps r) after)
