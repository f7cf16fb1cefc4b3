-- ===== src/Documents/Tests/Sequence.antt =====
-- Two submissions for one application, the second of a document that was sent before.
use psr_pl.Base.{String, true, All, List, [], ◌∷◌, some, ◌≡◌, ◌↔◌, refl, arith}
use psr_pl.Go.{ok}
use psr_pl.Sets.{contains_all}
use psr_pl.Dynamo.{Table, put_record, get_record}
use psr_pl.Documents.Model.{Record, status_complete, required_document_ids}
use psr_pl.Documents.Repository.{dynamo_repository}
use psr_pl.Documents.Service.{State, is_known_document, contains, submitted, submit, loaded}
use psr_pl.Documents.Progress.{IsWellFormed}
use psr_pl.Documents.Submit.{or_fresh}
use psr_pl.Documents.Abstract.{Submission, view, run, replay, run_refines}
use psr_pl.Documents.Tests.{stored, repo-IsRepository, recording}

abbrev pub empty : State (Table Record) (List (String × String))
empty = record { table = []; applications = [] }

pub empty-IsWellFormed : (k : String) (x : Record) → stored empty.table k ≡ some x → IsWellFormed x
empty-IsWellFormed k x h = absurd (ground arith)

abbrev twice : List Submission
twice =
    record { application_id = "app-1"; document_id = "proof-of-income"; now = 7 }
    ∷ record { application_id = "app-1"; document_id = "proof-of-income"; now = 8 }
    ∷ []

run_test : (run recording repo-IsRepository twice empty).0 ≡ ok tt
unfolding run submit loaded dynamo_repository put_record get_record submitted is_known_document
    contains contains_all required_document_ids
run_test = refl

run_refines_example :
    let after = (run recording repo-IsRepository twice empty).1 in
    let sets = replay twice (view stored empty.table) in
    (view stored after.table ≡ sets)
    × ((j : String)
        → ((or_fresh j (stored after.table j)).status ≡ status_complete)
          ↔ All (λ d. sets j d ≡ true) required_document_ids)
run_refines_example =
    run_refines recording repo-IsRepository twice empty empty-IsWellFormed run_test
