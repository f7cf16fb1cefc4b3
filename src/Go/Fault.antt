-- ===== src/Go/Fault.antt =====
-- Error values. `errors.Is` follows the `%w` chain; the text of a message stays an uninterpreted
-- part of the value.
use psr_pl.Base.{ℕ, String, Bool, false, nat_eq}

-- The package-level `errors.New` values of all the services.
pub data Sentinel : Type 0 where
  incomplete_application login_failed session_invalid offer_unavailable : Sentinel
  application_not_found already_confirmed offer_not_found selected_offer_not_found : Sentinel
  unauthorized unknown_document document_not_found : Sentinel
  missing_required_declarations already_signed esign_not_found : Sentinel

abbrev sentinel_number : Sentinel → ℕ
sentinel_number incomplete_application = 0
sentinel_number login_failed = 1
sentinel_number session_invalid = 2
sentinel_number offer_unavailable = 3
sentinel_number application_not_found = 4
sentinel_number already_confirmed = 5
sentinel_number offer_not_found = 6
sentinel_number selected_offer_not_found = 7
sentinel_number unauthorized = 8
sentinel_number unknown_document = 9
sentinel_number document_not_found = 10
sentinel_number missing_required_declarations = 11
sentinel_number already_signed = 12
sentinel_number esign_not_found = 13

pub data Error : Type 0 where
  sentinel : Sentinel → Error
  -- a `ConditionalCheckFailedException` of DynamoDB
  condition_failed : Error
  -- `errors.New(text)` and every error of a library
  text : String → Error
  -- `fmt.Errorf("… %d", status)`
  status_code : String → ℕ → Error
  -- `fmt.Errorf("…: %w", err)`
  wrap : String → Error → Error
  -- `fmt.Errorf("%w: %v", err, detail)`
  detail : Error → Error → Error

-- `errors.Is(err, target)`
abbrev pub is : Error → Sentinel → Bool
is (sentinel s) t = nat_eq (sentinel_number s) (sentinel_number t)
is condition_failed t = false
is (text m) t = false
is (status_code m n) t = false
is (wrap m e) t = is e t
is (detail e d) t = is e t

-- `errors.As(err, &condErr)`
abbrev pub is_condition_failed : Error → Bool
is_condition_failed (sentinel s) = false
is_condition_failed condition_failed = Bool.true
is_condition_failed (text m) = false
is_condition_failed (status_code m n) = false
is_condition_failed (wrap m e) = is_condition_failed e
is_condition_failed (detail e d) = is_condition_failed e
