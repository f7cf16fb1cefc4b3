-- ===== src/Acceptance/Model.antt =====
-- offer-acceptance-service/internal/offeracceptance/model.go and declarations.go. A `time.Time` is a
-- number.
use psr_pl.Base.{ℕ, String, Bool, true, List, [], ◌∷◌, if◌then◌else◌}

pub record Declaration : Type 0 where
  pub id : String
  pub title : String
  pub text : String
  pub required : Bool

pub record EsignRecord : Type 0 where
  pub application_id : String
  pub accepted_declaration_ids : List String
  pub signed_at : ℕ

abbrev pub standard_declarations : List Declaration
standard_declarations =
    record {
      id = "tila-disclosure";
      title = "Truth in Lending Act Disclosure";
      text =
          "I acknowledge I have reviewed the annual percentage rate, finance charge, amount financed, and total of payments for this loan.";
      required = true;
    }
    ∷ record {
      id = "esign-consent";
      title = "Electronic Signature Consent";
      text =
          "I consent to sign this agreement electronically and understand it has the same legal effect as a handwritten signature.";
      required = true;
    }
    ∷ record {
      id = "arbitration-agreement";
      title = "Arbitration Agreement";
      text =
          "I agree that disputes arising from this agreement will be resolved through binding arbitration rather than in court.";
      required = true;
    }
    ∷ []

required_ids : List Declaration → List String
required_ids [] = []
required_ids (d ∷ ds) = let ids = required_ids ds in if d.required then d.id ∷ ids else ids

unfoldable pub required_declaration_ids : List String
unfolding required_ids
required_declaration_ids = required_ids standard_declarations
