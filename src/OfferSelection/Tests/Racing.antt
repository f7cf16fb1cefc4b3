-- ===== src/OfferSelection/Tests/Racing.antt =====
-- Two confirmations at the same time, where a task token is taken once.
use psr_pl.Base.{
  String, Bool, true, false, List, [], ◌∷◌, ◌==◌, if◌then◌else◌, ◌≡◌, some, refl, arith, eq_refl,
}
use psr_pl.Go.{Error, Result, ok, err, text, wrap}
use psr_pl.Dynamo.{Table, put_record, get_record}
use psr_pl.Pricing.Model.{OfferOption}
use psr_pl.OfferSelection.Model.{SelectedOffer}
use psr_pl.OfferSelection.Repository.{dynamo_repository}
use psr_pl.OfferSelection.Service.{
  WorkflowResumer, State, find_offer, confirmed, get, confirm_offer,
}
use psr_pl.OfferSelection.Interleaved.{confirm_both, confirm_both_once}
use psr_pl.OfferSelection.Tests.{repo, stored, repo-IsRepository, pending}

abbrev is_used : List String → String → Bool
is_used [] token = false
is_used (x ∷ w) token = if x == token then true else is_used w token

abbrev once_only : WorkflowResumer (List String)
once_only = record {
  resume = λ token c o w.
      if is_used w token then (err (text "task timed out"), w) else (ok tt, token ∷ w);
}

taken_once :
    (token : String) (c c' : Bool) (x x' : OfferOption) (w : List String)
    → (once_only.resume token c x w).0 ≡ ok tt
    → (e : Error) × ((once_only.resume token c' x' (once_only.resume token c x w).1).0 ≡ err e)
taken_once token c c' x x' w h = (text "task timed out", ground (arith, eq_refl token))

abbrev before : State (Table SelectedOffer) (List String)
before = record { table = pending ∷ []; workflow = [] }

abbrev timed_out : Result SelectedOffer
timed_out = err (wrap "resuming workflow" (text "task timed out"))

confirm_both_once_test :
    ((e : Error) × (timed_out ≡ err e))
    × (stored
          (confirm_both repo once_only "app-1"
            ("standard", true)
            ("faster-payoff", false)
            before).1.table
          "app-1"
        ≡ some (confirmed pending "standard" true))
unfolding confirm_both confirm_offer get find_offer dynamo_repository put_record get_record
confirm_both_once_test =
    confirm_both_once once_only repo-IsRepository "app-1" ("standard", true)
      ("faster-payoff", false) before (confirmed pending "standard" true) timed_out taken_once refl
