-- ===== src/Documents/Model.antt =====
-- document-service/internal/document/model.go and requireddocuments.go. A `time.Time` is a number.
use psr_pl.Base.{ℕ, String, Bool, true, Option, List, [], ◌∷◌, if◌then◌else◌}

pub record RequiredDocument : Type 0 where
  pub id : String
  pub title : String
  pub description : String
  pub required : Bool

abbrev pub status_pending : String
status_pending = "PENDING"

abbrev pub status_complete : String
status_complete = "COMPLETE"

pub record Record : Type 0 where
  pub application_id : String
  pub submitted_document_ids : List String
  pub status : String
  pub completed_at : Option ℕ

abbrev pub standard_required_documents : List RequiredDocument
standard_required_documents =
    record {
      id = "proof-of-identity";
      title = "Proof of Identity";
      description = "A government-issued photo ID (driver's license, passport, or state ID).";
      required = true;
    }
    ∷ record {
      id = "proof-of-income";
      title = "Proof of Income";
      description = "Your most recent pay stub, or two years of tax returns if self-employed.";
      required = true;
    }
    ∷ record {
      id = "proof-of-address";
      title = "Proof of Address";
      description = "A recent utility bill or bank statement showing your current address.";
      required = true;
    }
    ∷ []

required_ids : List RequiredDocument → List String
required_ids [] = []
required_ids (d ∷ ds) = let ids = required_ids ds in if d.required then d.id ∷ ids else ids

unfoldable pub required_document_ids : List String
unfolding required_ids
required_document_ids = required_ids standard_required_documents
