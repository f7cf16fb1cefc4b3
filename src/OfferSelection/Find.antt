-- ===== src/OfferSelection/Find.antt =====
-- The search for the selected offer.
use psr_pl.Base.{
  String, List, [], ◌∷◌, ◌≡◌, ◌≢◌, ◌↔◌, ◌⊎◌, inl, inr, arith, eq_iff, Has, IsDistinct, ap,
}
use mathlib.Core.List.{map}
use psr_pl.Go.{ok, err, sentinel, offer_not_found}
use psr_pl.Pricing.Model.{WorkflowInput, CreditSummary, OfferOption}
use psr_pl.Pricing.Options.{price_options}
use psr_pl.Pricing.Terms.{price_options-IsDistinct}
use psr_pl.OfferSelection.Service.{find_offer}

-- The offer stands in the list.
abbrev pub Among : OfferOption → List OfferOption → Type 0
Among o [] = ⊥
Among o (x ∷ xs) = (x ≡ o) ⊎ Among o xs

abbrev pub ids : List OfferOption → List String
ids = map (λ o. o.id)

-- The search answers with an offer of the list that has the id.
pub find_offer_sound :
    (offers : List OfferOption) (id : String) (o : OfferOption)
    → find_offer offers id ≡ ok o
    → Among o offers × (o.id ≡ id)
unfolding find_offer
find_offer_sound [] id o h = cc
find_offer_sound (x ∷ offers) id o h = ground (arith, eq_iff x.id id, find_offer_sound offers id o)

find_offer_missing :
    (offers : List OfferOption) (id : String)
    → (Has id (ids offers) → ⊥)
    → find_offer offers id ≡ err (sentinel offer_not_found)
unfolding find_offer
find_offer_missing [] id h = ground arith
find_offer_missing (x ∷ offers) id h = ground (
  arith,
  eq_iff x.id id,
  find_offer_missing offers id (λ k. h (inr k)),
  λ (e : x.id ≡ id). h (inl e),
)

Has-Among : (offers : List OfferOption) (o : OfferOption) → Among o offers → Has o.id (ids offers)
Has-Among [] o h = h
Has-Among (x ∷ offers) o (inl e) = inl (ap (λ (y : OfferOption). y.id) e)
Has-Among (x ∷ offers) o (inr h) = inr (Has-Among offers o h)

find_offer_distinct :
    (offers : List OfferOption) (o : OfferOption)
    → IsDistinct (ids offers)
    → Among o offers
    → find_offer offers o.id ≡ ok o
unfolding find_offer
find_offer_distinct [] o d h = absurd h
find_offer_distinct (x ∷ offers) o d (inl e) = ground (arith, eq_iff x.id o.id)
find_offer_distinct (x ∷ offers) o (fresh, d) (inr h) = ground (
  arith,
  eq_iff x.id o.id,
  find_offer_distinct offers o d h,
  λ (e : x.id ≡ o.id). fresh (rw e (Has-Among offers o h)),
)

-- Selecting by the id of any offer that one pricing run presents finds exactly that offer.
pub find-price_options :
    (input : WorkflowInput) (credit : CreditSummary) (o : OfferOption)
    → Among o (price_options input credit)
    → find_offer (price_options input credit) o.id ≡ ok o
find-price_options input credit o =
    find_offer_distinct (price_options input credit) o (price_options-IsDistinct input credit)

find_offer_found :
    (offers : List OfferOption) (id : String)
    → Has id (ids offers)
    → find_offer offers id ≢ err (sentinel offer_not_found)
unfolding find_offer
find_offer_found [] id h = absurd h
find_offer_found (x ∷ offers) id (inl e) = ground (arith, eq_iff x.id id)
find_offer_found (x ∷ offers) id (inr h) = ground (arith, find_offer_found offers id h)

-- The search reports a missing offer exactly if no presented offer has the id.
pub find_offer_missing_iff :
    (offers : List OfferOption) (id : String)
    → (find_offer offers id ≡ err (sentinel offer_not_found)) ↔ ¬ Has id (ids offers)
find_offer_missing_iff offers id =
    (λ e h. find_offer_found offers id h e, find_offer_missing offers id)
