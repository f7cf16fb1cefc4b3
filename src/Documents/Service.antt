-- ===== src/Documents/Service.antt =====
-- document-service/internal/document/service.go. The table and the application-management service
-- are two systems, each with a state of its own that only its own calls change.
use psr_pl.Base.{
  ℕ, String, Bool, true, false, not, ◌&&◌, none, some, List, [], ◌∷◌, ◌++◌, ◌==◌, if◌then◌else◌,
}
use psr_pl.Go.{
  Result, ok, err, is, wrap, Exec, pure, raise, lift, wrapping, attempt, ◌>>=◌, ◌>>◌, sentinel,
  unknown_document, document_not_found,
}
use psr_pl.Sets.{contains_all}
use psr_pl.Documents.Model.{
  RequiredDocument, Record, status_pending, status_complete, standard_required_documents,
  required_document_ids,
}
use psr_pl.Documents.Repository.{Repository}

-- The Go interface `ApplicationStatusUpdater`: application id, status.
pub record StatusUpdater (N : Type 0) : Type 0 where
  pub update_status : String → String → Exec N (Unit {0})

pub record State (D N : Type 0) : Type 0 where
  pub table : D
  pub applications : N

module _ {D N A : Type 0} where
  abbrev on_table : Exec D A → Exec (State D N) A
  on_table m s = let (r, t) = m s.table in (r, record s { table = t })

  abbrev on_applications : Exec N A → Exec (State D N) A
  on_applications m s = let (r, n) = m s.applications in (r, record s { applications = n })

known_among : List RequiredDocument → String → Bool
known_among [] id = false
known_among (d ∷ ds) id = if d.id == id then true else known_among ds id

unfoldable pub is_known_document : String → Bool
unfolding known_among
is_known_document id = known_among standard_required_documents id

unfoldable pub contains : List String → String → Bool
contains [] id = false
contains (v ∷ have) id = if v == id then true else contains have id

abbrev pub fresh : String → Record
fresh application_id = record {
  application_id = application_id;
  submitted_document_ids = [];
  status = status_pending;
  completed_at = none;
}

abbrev pub is_complete : Record → Bool
is_complete r = r.status == status_complete

abbrev pub with_document : Record → String → Record
with_document r id =
    if not (contains r.submitted_document_ids id)
    then record r { submitted_document_ids = r.submitted_document_ids ++ id ∷ [] }
    else r

abbrev pub with_status : Record → ℕ → Record
with_status r now =
    if not (is_complete r) && contains_all r.submitted_document_ids required_document_ids
    then record r { status = status_complete; completed_at = some now }
    else r

-- The change that one submission makes to the record.
unfoldable pub submitted : Record → String → ℕ → Record
submitted r id now = with_status (with_document r id) now

unfoldable pub loaded : String → Result Record → Result Record
loaded application_id (ok r) = ok r
loaded application_id (err e) =
    if is e document_not_found
    then ok (fresh application_id)
    else err (wrap "getting document record" e)

module _ {D N : Type 0} (repo : Repository D) (application : StatusUpdater N) where
  unfoldable pub get : String → Exec (State D N) Record
  get application_id = do
    got ← attempt (on_table (repo.get application_id))
    lift (loaded application_id got)

  -- `if !wasComplete && record.Status == StatusComplete { … }`
  abbrev advance : String → Bool → Exec (State D N) (Unit {0})
  advance application_id false = pure tt
  advance application_id true =
      wrapping "advancing application status"
        (on_applications (application.update_status application_id "OFFER_ACCEPTED"))

  -- `Submit`, after the record was read.
  abbrev pub store : String → Record → Record → Exec (State D N) Record
  store application_id old new = do
    wrapping "saving document record" (on_table (repo.save new))
    advance application_id (not (is_complete old) && is_complete new)
    pure new

  unfoldable pub submit : String → String → ℕ → Exec (State D N) Record
  submit application_id document_id now =
      if not (is_known_document document_id) then raise (sentinel unknown_document) else do
        got ← attempt (on_table (repo.get application_id))
        old ← lift (loaded application_id got)
        store application_id old (submitted old document_id now)
