-- ===== src/Documents/Tests/Permuted.antt =====
-- Two documents of one application, in both orders.
use mathlib.Core.List.{Permᴰ}
use psr_pl.Base.{[], ◌∷◌, true, ◌≡◌, ◌↔◌, refl}
use psr_pl.Go.{ok}
use psr_pl.Sets.{contains_all}
use psr_pl.Dynamo.{put_record, get_record}
use psr_pl.Documents.Model.{status_complete, required_document_ids}
use psr_pl.Documents.Repository.{dynamo_repository}
use psr_pl.Documents.Service.{is_known_document, contains, submitted, submit, loaded}
use psr_pl.Documents.Submit.{or_fresh}
use psr_pl.Documents.Abstract.{Submission, run}
use psr_pl.Documents.Unordered.{documents, has_required, run_unordered}
use psr_pl.Documents.Tests.{stored, repo-IsRepository, recording}
use psr_pl.Documents.Tests.Sequence.{empty, empty-IsWellFormed}

abbrev income : Submission
income = record { application_id = "app-1"; document_id = "proof-of-income"; now = 7 }

abbrev identity : Submission
identity = record { application_id = "app-1"; document_id = "proof-of-identity"; now = 8 }

income_first_test : (run recording repo-IsRepository (income ∷ identity ∷ []) empty).0 ≡ ok tt
unfolding run submit loaded dynamo_repository put_record get_record submitted is_known_document
    contains contains_all required_document_ids
income_first_test = refl

identity_first_test : (run recording repo-IsRepository (identity ∷ income ∷ []) empty).0 ≡ ok tt
unfolding run submit loaded dynamo_repository put_record get_record submitted is_known_document
    contains contains_all required_document_ids
identity_first_test = refl

run_unordered_example :
    let one = (run recording repo-IsRepository (income ∷ identity ∷ []) empty).1.table in
    let other = (run recording repo-IsRepository (identity ∷ income ∷ []) empty).1.table in
    (documents stored one "app-1" ≡ documents stored other "app-1")
    × (((or_fresh "app-1" (stored one "app-1")).status ≡ status_complete)
        ↔ (has_required (documents stored other "app-1") ≡ true))
run_unordered_example =
    run_unordered recording repo-IsRepository (income ∷ identity ∷ []) (identity ∷ income ∷ [])
      empty "app-1" ∣ Permᴰ.swap refl refl ∣₁ empty-IsWellFormed income_first_test
      identity_first_test
