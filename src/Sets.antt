-- ===== src/Sets.antt =====
-- `containsAll` of document-service and offer-acceptance-service, which have the same text: a set as
-- `map[string]bool`, and the test for all wanted ids.
use psr_pl.Base.{
  String, Bool, true, false, not, List, [], ◌∷◌, ◌==◌, if◌then◌else◌, ◌≡◌, ◌↔◌, ◌⊎◌, inr, Has, All,
  All-imp, arith, eq_iff,
}

-- `map[string]bool`: a missing key reads as false.
abbrev mark : (String → Bool) → String → String → Bool
mark set id k = if id == k then true else set k

set_of : (String → Bool) → List String → String → Bool
set_of set [] = set
set_of set (id ∷ have) = set_of (mark set id) have

all_in : (String → Bool) → List String → Bool
all_in set [] = true
all_in set (id ∷ want) = if not (set id) then false else all_in set want

unfoldable pub contains_all : List String → List String → Bool
unfolding set_of all_in
contains_all have want = all_in (set_of (λ k. false) have) want

set_of_iff :
    (set : String → Bool) (have : List String) (id : String)
    → (set_of set have id ≡ true) ↔ ((set id ≡ true) ⊎ Has id have)
unfolding set_of all_in
set_of_iff set [] id = ground arith
set_of_iff set (v ∷ have) id = ground (arith, eq_iff v id, set_of_iff (mark set v) have id)

all_in_iff :
    (set : String → Bool) (want : List String)
    → (all_in set want ≡ true) ↔ All (λ id. set id ≡ true) want
unfolding set_of all_in
all_in_iff set [] = ground arith
all_in_iff set (id ∷ want) = ground (arith, all_in_iff set want)

set_of-Has : (have : List String) (id : String) → set_of (λ k. false) have id ≡ true → Has id have
set_of-Has have id h = ground (arith, set_of_iff (λ k. false) have id)

Has-set_of : (have : List String) (id : String) → Has id have → set_of (λ k. false) have id ≡ true
Has-set_of have id h = (set_of_iff (λ k. false) have id).1 (inr h)

-- The test for all wanted ids succeeds exactly if each of them stands in the list.
pub contains_all_iff :
    (have want : List String) → (contains_all have want ≡ true) ↔ All (λ id. Has id have) want
unfolding contains_all
contains_all_iff have want =
    let in_set = λ (id : String). set_of (λ k. false) have id ≡ true in
    let in_list = λ (id : String). Has id have in
    let (to, from) = all_in_iff (set_of (λ k. false) have) want in
    (
      λ h. All-imp in_set in_list want (set_of-Has have) (to h),
      λ h. from (All-imp in_list in_set want (Has-set_of have) h),
    )
