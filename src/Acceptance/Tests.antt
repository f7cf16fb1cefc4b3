-- ===== src/Acceptance/Tests.antt =====
-- Runs of the offer-acceptance service over a table in memory.
use psr_pl.Base.{
  arith, ℕ, String, List, [], ◌∷◌, ◌==◌, if◌then◌else◌, ◌≡◌, Option, none, some, refl, inl, inr,
}
use psr_pl.Go.{Error, ok, err, text, wrap}
use psr_pl.Sets.{contains_all}
use psr_pl.Dynamo.{
  memory, verbatim, memory-IsDynamo, verbatim-IsCodec, Table, stored_record, put_record,
}
use psr_pl.Acceptance.Model.{EsignRecord, required_declaration_ids}
use psr_pl.Acceptance.Repository.{
  messages, Repository, IsRepository, dynamo_repository, signatures-IsRepository,
}
use psr_pl.Acceptance.Service.{StatusUpdater, State, signature, esign}
use psr_pl.Acceptance.Stranded.{FailsWhole, Attempt, attempts, esign_stranded}
use psr_pl.Acceptance.Esign.{AcceptsRequired, esign_succeeds, esign_final}

abbrev pub key : EsignRecord → String
key r = r.application_id

abbrev pub repo : Repository (Table EsignRecord)
unfolding dynamo_repository
repo = dynamo_repository (memory key) (verbatim key)

abbrev pub stored : Table EsignRecord → String → Option EsignRecord
stored = stored_record messages (memory-IsDynamo key) (verbatim-IsCodec key)

pub repo-IsRepository : IsRepository repo stored
unfolding dynamo_repository
repo-IsRepository = signatures-IsRepository (memory-IsDynamo key) (verbatim-IsCodec key)

abbrev pub recording : StatusUpdater (List (String × String))
recording = record { update_status = λ id status n. (ok tt, (id, status) ∷ n) }

abbrev broken : StatusUpdater (List (String × String))
broken = record { update_status = λ id status n. (err (text "timed out"), n) }

abbrev pub accepted : List String
accepted = "arbitration-agreement" ∷ "tila-disclosure" ∷ "esign-consent" ∷ []

abbrev start : State (Table EsignRecord) (List (String × String))
start = record { table = []; applications = [] }

abbrev pub signed : EsignRecord
signed = signature "app-1" accepted 7

abbrev finished : State (Table EsignRecord) (List (String × String))
finished = record { table = signed ∷ []; applications = ("app-1", "DOCUMENTS_REQUIRED") ∷ [] }

esign_test : esign repo recording "app-1" accepted 7 start ≡ (ok signed, finished)
unfolding esign dynamo_repository put_record contains_all required_declaration_ids
esign_test = refl

esign_succeeds_example :
    let after = (esign repo recording "app-1" accepted 7 start).1 in
    AcceptsRequired accepted
    × (signed ≡ signature "app-1" accepted 7)
    × (stored start.table "app-1" ≡ none)
    × ((j : String)
        → stored after.table j ≡ (if "app-1" == j then some signed else stored start.table j))
    × (recording.update_status "app-1" "DOCUMENTS_REQUIRED" start.applications
        ≡ (ok tt, after.applications))
unfolding esign dynamo_repository put_record contains_all required_declaration_ids
esign_succeeds_example =
    esign_succeeds recording repo-IsRepository "app-1" accepted 7 start signed refl

esign_final_test :
    let (answer, after) = esign repo recording "app-1" accepted 9 finished in
    ((e : Error) × (answer ≡ err e))
    × ((j : String) → stored after.table j ≡ stored finished.table j)
    × (after.applications ≡ finished.applications)
esign_final_test = esign_final recording repo-IsRepository "app-1" accepted 9 finished signed refl

all_accepted : AcceptsRequired accepted
unfolding required_declaration_ids
all_accepted = (inr (inl refl), (inr (inr (inl refl)), (inl refl, tt)))

-- A put in memory fails only if the condition fails, and then changes nothing.
creates_whole : FailsWhole repo stored
unfolding dynamo_repository put_record
creates_whole r t e j failed = inl (ground arith)

esign_stranded_example :
    let (answer, after) = esign repo broken "app-1" accepted 7 start in
    (answer ≡ err (wrap "advancing application status" (text "timed out")))
    × ((between : List Attempt) (again : List String) (later : ℕ)
        → let reached = attempts broken repo-IsRepository creates_whole between after in
          let (retry, final) = esign repo broken "app-1" again later reached in
          ((f : Error) × (retry ≡ err f))
          × (final.applications ≡ reached.applications)
          × (stored final.table "app-1" ≡ some signed))
unfolding dynamo_repository put_record
esign_stranded_example =
    esign_stranded broken repo-IsRepository creates_whole "app-1" accepted 7 start
      (text "timed out") all_accepted refl refl
