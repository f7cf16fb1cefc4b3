-- ===== src/OfferLogMock/Store.antt =====
-- application-management-service/cmd/offerlog-mock/main.go: the store and the two handlers. The map
-- holds pointers: a cell of the heap stands for an `*offer`, and two keys may share one. The mutex
-- makes each operation one step. The answers of the random number generator are arguments, and an
-- error is a reply with a message, whatever its content type.
use Prim.Native.String.{◌++◌ as concat, len, slice}
use psr_pl.Base.{
  ℕ, zero, suc, String, Bool, true, false, ◌&&◌, Option, none, some, List, [], ◌∷◌, ◌++◌, ◌==◌, ltb,
  if◌then◌else◌, length,
}
use psr_pl.Go.{text, Result, ok, err}
use psr_pl.Go.Int64.{ℤ, pos}
use psr_pl.Http.{Reply, write_json, write_error}

pub record Address : Type 0 where
  pub line1 : String
  pub city : String
  pub state : String
  pub postcode : String

-- `apr_percentage` is the 64 bits of the `float64`.
pub record Offer : Type 0 where
  pub intake_id : String
  pub offer_id : String
  pub campaign_offer_id : String
  pub term_months : ℤ
  pub amount_cents : ℤ
  pub apr_percentage : ℕ
  pub first_name : String
  pub last_name : String
  pub address : Address
  pub status : String

-- The map, the latest entry first, and the heap by address.
pub record Store : Type 0 where
  pub by_key : List (String × ℕ)
  pub heap : List Offer

abbrev pub look : List (String × ℕ) → String → Option ℕ
look [] k = none
look ((j, a) ∷ m) k = if j == k then some a else look m k

abbrev pub cell : List Offer → ℕ → Option Offer
cell [] a = none
cell (o ∷ h) zero = some o
cell (o ∷ h) (suc a) = cell h a

-- `o.Status = status` through a pointer.
abbrev pub set_cell : List Offer → ℕ → String → List Offer
set_cell [] a status = []
set_cell (o ∷ h) zero status = record o { status = status } ∷ h
set_cell (o ∷ h) (suc a) status = o ∷ set_cell h a status

-- The offer is allocated, and put under its token and its intake id.
abbrev pub seed : String → Offer → Store → Store
seed token o s =
    let a = length s.heap in
    record { by_key = (o.intake_id, a) ∷ (token, a) ∷ s.by_key; heap = s.heap ++ o ∷ [] }

abbrev pub used_fixture : Offer
used_fixture = record {
  intake_id = "intake-fixture-used";
  offer_id = "offer-2";
  campaign_offer_id = "campaign-1";
  term_months = pos 48;
  amount_cents = pos 1000000;
  apr_percentage = 4623789442425946112;
  first_name = "Sam";
  last_name = "Lee";
  address = record { line1 = "10 Congress Ave"; city = "Austin"; state = "TX"; postcode = "78701" };
  status = "USED";
}

abbrev pub active_offer : String → String → String → Offer
active_offer intake_id offer_id campaign = record {
  intake_id = intake_id;
  offer_id = offer_id;
  campaign_offer_id = campaign;
  term_months = pos 60;
  amount_cents = pos 1500000;
  apr_percentage = 4622888722500472013;
  first_name = "Jane";
  last_name = "Smith";
  address = record { line1 = "47 W 5th St"; city = "Austin"; state = "TX"; postcode = "78701" };
  status = "ACTIVE";
}

abbrev pub active_fixture : Offer
active_fixture = active_offer "intake-fixture-active" "offer-1" "campaign-1"

abbrev pub empty_store : Store
empty_store = record { by_key = []; heap = [] }

abbrev pub new_store : Store
new_store = seed "USED-INVITE-456" used_fixture (seed "VALID-INVITE-123" active_fixture empty_store)

-- Two answers of `randomHex`, for the intake id and for the offer id.
abbrev pub minted : String × String → Offer
minted (first, second) =
    active_offer (concat "intake-" first) (concat "offer-" second) "campaign-adhoc"

abbrev pub mints : String → Bool
mints token = ltb (len "VALID-") (len token) && slice token 0 (len "VALID-") == "VALID-"

abbrev resolved : String → String × String → Store → Option ℕ → Option ℕ × Store
resolved token random s (some a) = (some a, s)
resolved token random s none =
    if mints token then (some (length s.heap), seed token (minted random) s) else (none, s)

unfoldable pub resolve : String → String × String → Store → Option ℕ × Store
resolve token random s = resolved token random s (look s.by_key token)

abbrev assigned : String → Store → Option ℕ → Bool × Store
assigned status s none = (false, s)
assigned status s (some a) = (true, record s { heap = set_cell s.heap a status })

unfoldable pub set_status : String → String → Store → Bool × Store
set_status intake_id status s = assigned status s (look s.by_key intake_id)

-- `writeJSON` reads the offer through the pointer.
abbrev pub offer_reply : Option Offer → Reply Offer
offer_reply none = write_error 404 (text "no such invitation")
offer_reply (some o) = write_json 200 o

abbrev read : List Offer → Option ℕ → Option Offer
read h none = none
read h (some a) = cell h a

unfoldable pub validate : String × String → Result String → Store → Reply Offer × Store
validate random (err e) s = (write_error 400 e, s)
validate random (ok token) s =
    let (o, t) = resolve token random s in (offer_reply (read t.heap o), t)

unfoldable pub put_status : String → Result String → Store → Reply String × Store
put_status intake_id (err e) s = (write_error 400 e, s)
put_status intake_id (ok status) s =
    let (found, t) = set_status intake_id status s in
    (if found then write_json 200 status else write_error 404 (text "no such invitation"), t)
