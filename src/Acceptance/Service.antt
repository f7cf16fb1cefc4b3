-- ===== src/Acceptance/Service.antt =====
-- offer-acceptance-service/internal/offeracceptance/service.go. The table and the
-- application-management service are two systems, each with a state of its own.
use psr_pl.Base.{ℕ, String, not, List, if◌then◌else◌}
use psr_pl.Go.{Exec, pure, raise, wrapping, ◌>>◌, sentinel, missing_required_declarations}
use psr_pl.Sets.{contains_all}
use psr_pl.Acceptance.Model.{EsignRecord, required_declaration_ids}
use psr_pl.Acceptance.Repository.{Repository}

-- The Go interface `ApplicationStatusUpdater`: application id, status.
pub record StatusUpdater (N : Type 0) : Type 0 where
  pub update_status : String → String → Exec N (Unit {0})

pub record State (D N : Type 0) : Type 0 where
  pub table : D
  pub applications : N

module _ {D N A : Type 0} where
  abbrev on_table : Exec D A → Exec (State D N) A
  on_table m s = let (r, t) = m s.table in (r, record s { table = t })

  abbrev on_applications : Exec N A → Exec (State D N) A
  on_applications m s = let (r, n) = m s.applications in (r, record s { applications = n })

abbrev pub signature : String → List String → ℕ → EsignRecord
signature application_id accepted now = record {
  application_id = application_id;
  accepted_declaration_ids = accepted;
  signed_at = now;
}

module _ {D N : Type 0} (repo : Repository D) (application : StatusUpdater N) where
  unfoldable pub esign : String → List String → ℕ → Exec (State D N) EsignRecord
  esign application_id accepted now =
      if not (contains_all accepted required_declaration_ids)
      then raise (sentinel missing_required_declarations)
      else do
        wrapping "recording e-signature"
            (on_table (repo.create (signature application_id accepted now)))
        wrapping "advancing application status"
            (on_applications (application.update_status application_id "DOCUMENTS_REQUIRED"))
        pure (signature application_id accepted now)

  unfoldable pub get : String → Exec (State D N) EsignRecord
  get application_id = wrapping "getting esign record" (on_table (repo.get application_id))
