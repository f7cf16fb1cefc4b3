-- ===== src/Documents/Tests.antt =====
-- Runs of the document service over a table in memory.
mod Racing
mod Sequence
mod Permuted
use psr_pl.Base.{
  ℕ, String, true, List, [], ◌∷◌, ◌==◌, if◌then◌else◌, ◌≡◌, ◌↔◌, Option, none, some, arith, refl,
}
use psr_pl.Go.{ok, err, text, wrap}
use psr_pl.Sets.{contains_all}
use psr_pl.Dynamo.{
  memory, verbatim, memory-IsDynamo, verbatim-IsCodec, Table, stored_record, put_record, get_record,
}
use psr_pl.Documents.Model.{Record, status_complete, required_document_ids}
use psr_pl.Documents.Repository.{
  messages, Repository, IsRepository, dynamo_repository, documents-IsRepository,
}
use psr_pl.Documents.Service.{
  StatusUpdater, State, is_known_document, contains, fresh, submitted, submit, loaded,
}
use psr_pl.Documents.Progress.{HasRequired, IsWellFormed}
use psr_pl.Documents.Orders.{submit_all, submit_all_iff}
use psr_pl.Documents.Abstract.{Submission}
use psr_pl.Documents.Stranded.{FailsWhole, attempts, submit_stranded}
use psr_pl.Documents.Submit.{or_fresh, completes, submit_document_succeeds, submit-IsWellFormed}

abbrev pub key : Record → String
key r = r.application_id

abbrev pub repo : Repository (Table Record)
unfolding dynamo_repository
repo = dynamo_repository (memory key) (verbatim key)

abbrev pub stored : Table Record → String → Option Record
stored = stored_record messages (memory-IsDynamo key) (verbatim-IsCodec key)

pub repo-IsRepository : IsRepository repo stored
unfolding dynamo_repository
repo-IsRepository = documents-IsRepository (memory-IsDynamo key) (verbatim-IsCodec key)

-- Each update is written down: the application and its status.
abbrev pub recording : StatusUpdater (List (String × String))
recording = record { update_status = λ id status n. (ok tt, (id, status) ∷ n) }

abbrev broken : StatusUpdater (List (String × String))
broken = record { update_status = λ id status n. (err (text "timed out"), n) }

-- Two of the three documents have been submitted.
abbrev pub nearly : Record
nearly = record {
  application_id = "app-1";
  submitted_document_ids = "proof-of-income" ∷ "proof-of-identity" ∷ [];
  status = "PENDING";
  completed_at = none;
}

abbrev pub full : Record
full = record {
  application_id = "app-1";
  submitted_document_ids = "proof-of-income" ∷ "proof-of-identity" ∷ "proof-of-address" ∷ [];
  status = "COMPLETE";
  completed_at = some 7;
}

abbrev start : State (Table Record) (List (String × String))
start = record { table = nearly ∷ []; applications = [] }

submit_document_test : submit repo recording "app-1" "proof-of-address" 7 start ≡ (
  ok full,
  record { table = full ∷ nearly ∷ []; applications = ("app-1", "OFFER_ACCEPTED") ∷ [] },
)
unfolding submit loaded dynamo_repository put_record get_record submitted is_known_document contains
    contains_all required_document_ids
submit_document_test = refl

submit_document_succeeds_example :
    let after = (submit repo recording "app-1" "proof-of-address" 7 start).1 in
    let old = or_fresh "app-1" (stored start.table "app-1") in
    (is_known_document "proof-of-address" ≡ true)
    × (full ≡ submitted old "proof-of-address" 7)
    × ((j : String)
        → stored after.table j ≡ (if "app-1" == j then some full else stored start.table j))
    × ((if completes old "proof-of-address" 7
          then recording.update_status "app-1" "OFFER_ACCEPTED" start.applications
          else (ok tt, start.applications))
        ≡ (ok tt, after.applications))
unfolding submit loaded dynamo_repository put_record get_record submitted is_known_document contains
    contains_all required_document_ids
submit_document_succeeds_example =
    submit_document_succeeds recording repo-IsRepository "app-1" "proof-of-address" 7 start full
      refl

known : is_known_document "proof-of-address" ≡ true
unfolding is_known_document
known = refl

pub completing : completes nearly "proof-of-address" 7 ≡ true
unfolding submitted contains contains_all required_document_ids
completing = refl

-- A put in memory does not fail.
saves_whole : FailsWhole repo stored
unfolding dynamo_repository put_record
saves_whole r t e j failed = absurd (ground arith)

submit_stranded_example :
    let (answer, after) = submit repo broken "app-1" "proof-of-address" 7 start in
    (answer ≡ err (wrap "advancing application status" (text "timed out")))
    × ((between : List Submission) (later : String) (time : ℕ)
        → let reached = attempts broken repo-IsRepository saves_whole between after in
          (submit repo broken "app-1" later time reached).1.applications ≡ reached.applications)
unfolding dynamo_repository put_record get_record
submit_stranded_example =
    submit_stranded broken repo-IsRepository saves_whole "app-1" "proof-of-address" 7 start nearly
      (text "timed out") known refl completing refl refl

abbrev empty : State (Table Record) (List (String × String))
empty = record { table = []; applications = [] }

abbrev first : Record
first = record {
  application_id = "app-1";
  submitted_document_ids = "proof-of-income" ∷ [];
  status = "PENDING";
  completed_at = none;
}

empty-IsWellFormed : (k : String) (x : Record) → stored empty.table k ≡ some x → IsWellFormed x
empty-IsWellFormed k x h = absurd (ground arith)

submit-IsWellFormed_test : IsWellFormed first
unfolding submit loaded dynamo_repository put_record get_record submitted is_known_document contains
    contains_all required_document_ids
submit-IsWellFormed_test =
    submit-IsWellFormed recording repo-IsRepository "app-1" "proof-of-income" 7 empty first
      empty-IsWellFormed refl "app-1" first refl

abbrev arrivals : List String
arrivals = "proof-of-address" ∷ "proof-of-income" ∷ "proof-of-address" ∷ "proof-of-identity" ∷ []

submit_all_iff_test :
    ((submit_all (fresh "app-1") arrivals 7).status ≡ status_complete) ↔ HasRequired arrivals
submit_all_iff_test = submit_all_iff "app-1" arrivals 7
