-- ===== src/Documents/Sets.antt =====
-- The membership tests of the service mean membership.
use psr_pl.Base.{String, true, List, [], ◌∷◌, ◌≡◌, ◌↔◌, Has, arith, eq_iff}
use psr_pl.Documents.Service.{contains}

-- The scan for one document finds exactly the ids of the list.
pub contains_iff : (have : List String) (id : String) → (contains have id ≡ true) ↔ Has id have
unfolding contains
contains_iff [] id = ground arith
contains_iff (v ∷ have) id = ground (arith, eq_iff v id, contains_iff have id)
