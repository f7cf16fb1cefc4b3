-- ===== src/Documents/Unordered.antt =====
-- The documents of an application as a quotient: lists of ids with the same members are one set. In
-- it the order of submissions does not matter.
use mathlib.Core.Path.{fun_ext}
use mathlib.Core.Logic.{∥∥₁_elim}
use mathlib.Core.Bool.{Bool-set}
use mathlib.Core.List.{Perm, Permᴰ}
use mathlib.Core.Quot
use mathlib.Core.Quot.{Quot, Quot-set}
use psr_pl.Base.{
  String, Bool, true, Option, List, ◌≡◌, ◌↔◌, refl, sym, arith, All, All-imp, Has, ◌∙◌, ap,
}
use psr_pl.Go.{ok}
use psr_pl.Sets.{contains_all, contains_all_iff}
use psr_pl.Documents.Model.{Record, status_complete, required_document_ids}
use psr_pl.Documents.Repository.{Repository, IsRepository}
use psr_pl.Documents.Sets.{contains_iff}
use psr_pl.Documents.Service.{StatusUpdater, State, contains}
use psr_pl.Documents.Submit.{or_fresh}
use psr_pl.Documents.Abstract.{
  Submissions, insert_document, view, Submission, replay, run, AllWellFormed, run_refines,
}

abbrev pub SameDocuments : List String → List String → Type 0
SameDocuments ids others = (d : String) → contains ids d ≡ contains others d

abbrev pub DocumentSet : Type 0
DocumentSet = Quot SameDocuments

-- The set of an application in a table.
abbrev pub documents : {D : Type 0} → (D → String → Option Record) → D → String → DocumentSet
documents stored t j = Quot.mk (or_fresh j (stored t j)).submitted_document_ids

Has-same :
    (ids others : List String) → SameDocuments ids others → (d : String) → Has d ids → Has d others
Has-same ids others same d h = ground (arith, same d, contains_iff ids d, contains_iff others d)

contains_all_same :
    (ids others : List String)
    → SameDocuments ids others
    → contains_all ids required_document_ids ≡ true
    → contains_all others required_document_ids ≡ true
contains_all_same ids others same h = (contains_all_iff others required_document_ids).1 (
    All-imp (λ d. Has d ids) (λ d. Has d others) required_document_ids (Has-same ids others same)
      ((contains_all_iff ids required_document_ids).0 h))

pub contains_all-resp :
    (ids others : List String)
    → SameDocuments ids others
    → contains_all ids required_document_ids ≡ contains_all others required_document_ids
contains_all-resp ids others same =
    ground
      (arith, contains_all_same ids others same, contains_all_same others ids (λ d. sym (same d)))

-- `containsAll` for the required documents, on the set.
unfoldable pub has_required : DocumentSet → Bool
has_required = Quot.lift Bool-set (λ ids. contains_all ids required_document_ids) contains_all-resp

-- The test on the set is the one on its members.
has_required_iff :
    (ids : List String)
    → (has_required (Quot.mk ids) ≡ true) ↔ All (λ d. contains ids d ≡ true) required_document_ids
unfolding has_required
has_required_iff ids =
    let (to, from) = contains_all_iff ids required_document_ids in
    let listed = λ (d : String). Has d ids in
    let found = λ (d : String). contains ids d ≡ true in
    (
      λ h. All-imp listed found required_document_ids (λ d. (contains_iff ids d).1) (to h),
      λ h. from (All-imp found listed required_document_ids (λ d. (contains_iff ids d).0) h),
    )

insert_comm :
    (x y : Submission) (set : Submissions)
    → insert_document x.application_id x.document_id
        (insert_document y.application_id y.document_id set)
      ≡ insert_document y.application_id y.document_id
          (insert_document x.application_id x.document_id set)
insert_comm x y set = fun_ext (λ j. fun_ext (λ d. ground arith))

replay-permuted :
    {xs ys : List Submission} → Permᴰ xs ys → (set : Submissions) → replay xs set ≡ replay ys set
unfolding replay
replay-permuted Permᴰ.nil set = refl
replay-permuted (Permᴰ.cons e d) set = rw e (replay-permuted d _)
replay-permuted (Permᴰ.swap {a} {b} {a'} {b'} {l} e f) set =
    rw (e, f) (ap (replay l) (insert_comm a' b' set))
replay-permuted (Permᴰ.trans d e) set = replay-permuted d set ∙ replay-permuted e set

-- The order of the same insertions does not matter.
replay_order :
    {xs ys : List Submission} → Perm xs ys → (set : Submissions) → replay xs set ≡ replay ys set
replay_order p set = ∥∥₁_elim p (hlevel) (λ d. replay-permuted d set)

module _ {D N : Type 0} {repo : Repository D} (application : StatusUpdater N)
    {stored : D → String → Option Record} (law : IsRepository repo stored) where
  -- The sets after two orders of the same submissions.
  run-view_order :
      (xs ys : List Submission) (s : State D N)
      → Perm xs ys
      → AllWellFormed application law s.table
      → (run application law xs s).0 ≡ ok tt
      → (run application law ys s).0 ≡ ok tt
      → view stored (run application law xs s).1.table
        ≡ view stored (run application law ys s).1.table
  run-view_order xs ys s p w h k =
      (run_refines application law xs s w h).0
      ∙ replay_order p (view stored s.table)
      ∙ sym (run_refines application law ys s w k).0

  -- Two orders of the same submissions, where both succeed, leave the same set of documents for every
  -- application, and its record says that it is complete exactly if this set has every required
  -- document.
  pub run_unordered :
      (xs ys : List Submission) (s : State D N) (j : String)
      → Perm xs ys
      → AllWellFormed application law s.table
      → (run application law xs s).0 ≡ ok tt
      → (run application law ys s).0 ≡ ok tt
      → let one = (run application law xs s).1.table in
        let other = (run application law ys s).1.table in
        (documents stored one j ≡ documents stored other j)
        × (((or_fresh j (stored one j)).status ≡ status_complete)
            ↔ (has_required (documents stored other j) ≡ true))
  run_unordered xs ys s j p w h k =
      let same = run-view_order xs ys s p w h k in
      let (w', seen) = run_refines application law xs s w h in
      let required =
        has_required_iff
          (or_fresh j (stored (run application law ys s).1.table j)).submitted_document_ids in
      (
        Quot.sound (λ d. ap (λ v. v j d) same),
        (
          λ c. required.1 ((rw (sym w' ∙ same) at (seen j)).0 c),
          λ r. (rw (sym w' ∙ same) at (seen j)).1 (required.0 r),
        ),
      )
