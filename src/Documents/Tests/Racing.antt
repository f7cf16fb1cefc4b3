-- ===== src/Documents/Tests/Racing.antt =====
-- Two first submissions at the same time.
use psr_pl.Base.{String, ◌≡◌, ◌≢◌, some, refl, arith, eq_iff, Has}
use psr_pl.Sets.{contains_all}
use psr_pl.Dynamo.{put_record, get_record}
use psr_pl.Documents.Model.{required_document_ids}
use psr_pl.Documents.Repository.{dynamo_repository}
use psr_pl.Documents.Service.{submitted, contains, get, loaded}
use psr_pl.Documents.Interleaved.{submit_both, submit_both_loses}
use psr_pl.Documents.Tests.{repo, stored, repo-IsRepository, recording, empty, first}

documents_differ : ◌≢◌ {A = String} "proof-of-address" "proof-of-income"
documents_differ = ground (arith, eq_iff "proof-of-address" "proof-of-income")

submit_both_loses_example :
    let after =
      (submit_both repo recording "app-1" "proof-of-address" "proof-of-income" 7 empty).1 in
    (stored after.table "app-1" ≡ some first)
    × Has "proof-of-income" first.submitted_document_ids
    × (¬ Has "proof-of-address" first.submitted_document_ids)
unfolding submit_both get loaded dynamo_repository put_record get_record submitted contains
    contains_all required_document_ids
submit_both_loses_example =
    submit_both_loses recording repo-IsRepository "app-1" "proof-of-address" "proof-of-income" 7
      empty first documents_differ (λ h. h) refl
