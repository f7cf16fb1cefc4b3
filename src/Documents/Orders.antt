-- ===== src/Documents/Orders.antt =====
-- The order in which documents arrive, and repetitions, do not matter.
use psr_pl.Base.{
  ℕ, String, List, [], ◌∷◌, ◌++◌, ◌≡◌, ◌↔◌, ◌⊎◌, inl, inr, Has, Has-append, Has-append_left,
  Has-append_right, arith, All-imp, Bool-cases,
}
use mathlib.Core.List.{append-nil}
use psr_pl.Documents.Model.{Record, status_complete, required_document_ids}
use psr_pl.Documents.Service.{contains, fresh, submitted}
use psr_pl.Documents.Progress.{
  HasRequired, ids_after, submitted_ids, submitted_status, fresh_complete, Has-ids_after,
  Has-ids_after_self,
}

-- The record after a list of submissions.
pub submit_all : Record → List String → ℕ → Record
submit_all r [] now = r
submit_all r (id ∷ rest) now = submit_all (submitted r id now) rest now

abbrev IsTruthful : Record → Type 0
IsTruthful r = (r.status ≡ status_complete) ↔ HasRequired r.submitted_document_ids

HasRequired-imp :
    (xs ys : List String) → ((k : String) → Has k xs → Has k ys) → HasRequired xs → HasRequired ys
HasRequired-imp xs ys = All-imp (λ k. Has k xs) (λ k. Has k ys) required_document_ids

pub Has-ids_after_cases :
    (ids : List String) (id k : String) → Has k (ids_after ids id) → Has k ids ⊎ (id ≡ k)
Has-ids_after_cases ids id k h = elim (Bool-cases (contains ids id)) [
  | inl old ↦ inl (rw old at h)
  | inr new ↦ last (rw new at h)
]
  where
    last : Has k (ids ++ id ∷ []) → Has k ids ⊎ (id ≡ k)
    last m = elim (Has-append k ids (id ∷ []) m) [
      | inl before ↦ inl before
      | inr (inl e) ↦ inr e
      | inr (inr b) ↦ absurd b
    ]

regroup :
    (ids rest : List String) (id k : String)
    → Has k (ids_after ids id ++ rest) ↔ Has k (ids ++ id ∷ rest)
regroup ids rest id k = (to, from)
  where
    to : Has k (ids_after ids id ++ rest) → Has k (ids ++ id ∷ rest)
    to h = elim (Has-append k (ids_after ids id) rest h) [
      | inl m ↦ elim (Has-ids_after_cases ids id k m) [
        | inl old ↦ Has-append_left k ids (id ∷ rest) old
        | inr e ↦ Has-append_right k ids (id ∷ rest) (inl e)
      ]
      | inr m ↦ Has-append_right k ids (id ∷ rest) (inr m)
    ]

    from : Has k (ids ++ id ∷ rest) → Has k (ids_after ids id ++ rest)
    from h = elim (Has-append k ids (id ∷ rest) h) [
      | inl m ↦ Has-append_left k (ids_after ids id) rest (Has-ids_after ids id k m)
      | inr (inl e) ↦
          Has-append_left k (ids_after ids id) rest (rw (← e) (Has-ids_after_self ids id))
      | inr (inr m) ↦ Has-append_right k (ids_after ids id) rest m
    ]

submitted-IsTruthful :
    (r : Record) (id : String) (now : ℕ) → IsTruthful r → IsTruthful (submitted r id now)
submitted-IsTruthful r id now t = rw (submitted_ids r id now) (
    ground (
      arith,
      submitted_status r id now,
      HasRequired-imp r.submitted_document_ids (ids_after r.submitted_document_ids id)
          (Has-ids_after r.submitted_document_ids id),
    ))

submit_all_status :
    (r : Record) (rest : List String) (now : ℕ)
    → IsTruthful r
    → ((submit_all r rest now).status ≡ status_complete)
      ↔ HasRequired (r.submitted_document_ids ++ rest)
unfolding submit_all
submit_all_status r [] now t = rw append-nil t
submit_all_status r (id ∷ rest) now t =
    let ids = r.submitted_document_ids in
    let (to, from) =
      submit_all_status (submitted r id now) rest now (submitted-IsTruthful r id now t) in
    let same = submitted_ids r id now in
    (
      λ h. HasRequired-imp _ _ (λ k. (regroup ids rest id k).0) (rw same at (to h)),
      λ h. from (rw same (HasRequired-imp _ _ (λ k. (regroup ids rest id k).1) h)),
    )

-- Starting from nothing, a list of submissions completes the record exactly if every required
-- document is in the list, in whatever order and however often.
pub submit_all_iff :
    (application_id : String) (documents : List String) (now : ℕ)
    → ((submit_all (fresh application_id) documents now).status ≡ status_complete)
      ↔ HasRequired documents
submit_all_iff application_id documents now =
    submit_all_status (fresh application_id) documents now (fresh_complete application_id)
