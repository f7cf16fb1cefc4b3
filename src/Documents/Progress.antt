-- ===== src/Documents/Progress.antt =====
-- How one submission changes the record.
use psr_pl.Base.{
  ℕ, String, true, none, List, [], ◌∷◌, ◌++◌, if◌then◌else◌, ◌≡◌, ◌≢◌, ◌↔◌, ◌⊎◌, inl, inr, Has,
  Has-append_left, Has-append_right, IsDistinct, IsDistinct-snoc, arith, eq_iff, refl, All, All-imp,
  All-append, Bool-cases,
}
use psr_pl.Documents.Model.{Record, status_pending, status_complete, required_document_ids}
use psr_pl.Documents.Service.{is_known_document, contains, fresh, submitted}
use psr_pl.Documents.Sets.{contains_iff}
use psr_pl.Sets.{contains_all_iff}

-- Every required document is among the ids.
abbrev pub HasRequired : List String → Type 0
HasRequired ids = All (λ id. Has id ids) required_document_ids

-- The ids are known and distinct; the record is complete exactly if every required document is
-- there, and carries a completion time exactly if it is complete.
pub record IsWellFormed (r : Record) : Type 0 where
  pub distinct : IsDistinct r.submitted_document_ids
  pub known : All (λ id. is_known_document id ≡ true) r.submitted_document_ids
  pub complete_iff : (r.status ≡ status_complete) ↔ HasRequired r.submitted_document_ids
  pub stamped_iff : (r.status ≡ status_complete) ↔ (r.completed_at ≢ none)

-- The ids after a submission: the new one is at the end, unless it was there.
abbrev pub ids_after : List String → String → List String
ids_after ids id = if contains ids id then ids else ids ++ id ∷ []

pub submitted_ids :
    (r : Record) (id : String) (now : ℕ)
    → (submitted r id now).submitted_document_ids ≡ ids_after r.submitted_document_ids id
unfolding submitted
submitted_ids r id now = ground arith

pub submitted_status :
    (r : Record) (id : String) (now : ℕ)
    → ((submitted r id now).status ≡ status_complete)
      ↔ ((r.status ≡ status_complete) ⊎ HasRequired (ids_after r.submitted_document_ids id))
unfolding submitted
submitted_status r id now = ground (
  arith,
  eq_iff r.status status_complete,
  contains_all_iff (ids_after r.submitted_document_ids id) required_document_ids,
)

ids_after-IsDistinct :
    (ids : List String) (id : String) → IsDistinct ids → IsDistinct (ids_after ids id)
ids_after-IsDistinct ids id d = elim (Bool-cases (contains ids id)) [
  | inl old ↦ rw old d
  | inr new ↦ rw new (IsDistinct-snoc ids id d (λ h. cc ((contains_iff ids id).1 h)))
]

ids_after-known :
    (P : String → Type 0) (ids : List String) (id : String)
    → All P ids
    → P id
    → All P (ids_after ids id)
ids_after-known P ids id h p = elim (Bool-cases (contains ids id)) [
  | inl old ↦ rw old h
  | inr new ↦ rw new (All-append P ids (id ∷ []) h (p, tt))
]

-- A submission keeps what was submitted before, and the new id is among the ids.
pub Has-ids_after : (ids : List String) (id k : String) → Has k ids → Has k (ids_after ids id)
Has-ids_after ids id k h = elim (Bool-cases (contains ids id)) [
  | inl old ↦ rw old h
  | inr new ↦ rw new (Has-append_left k ids (id ∷ []) h)
]

pub Has-ids_after_self : (ids : List String) (id : String) → Has id (ids_after ids id)
Has-ids_after_self ids id = elim (Bool-cases (contains ids id)) [
  | inl old ↦ rw old ((contains_iff ids id).0 old)
  | inr new ↦ rw new (Has-append_right id ids (id ∷ []) (inl refl))
]

HasRequired-ids_after :
    (ids : List String) (id : String) → HasRequired ids → HasRequired (ids_after ids id)
HasRequired-ids_after ids id h =
    All-imp (λ k. Has k ids) (λ k. Has k (ids_after ids id)) required_document_ids
      (Has-ids_after ids id) h

submitted_stamp :
    (r : Record) (id : String) (now : ℕ)
    → IsWellFormed r
    → ((submitted r id now).status ≡ status_complete) ↔ ((submitted r id now).completed_at ≢ none)
unfolding submitted
submitted_stamp r id now w = ground (arith, eq_iff r.status status_complete, w.stamped_iff)

-- A submission of a known document keeps the record well formed.
pub submitted-IsWellFormed :
    (r : Record) (id : String) (now : ℕ)
    → IsWellFormed r
    → is_known_document id ≡ true
    → IsWellFormed (submitted r id now)
submitted-IsWellFormed r id now w known =
    let ids = r.submitted_document_ids in
    let all_known = λ (k : String). is_known_document k ≡ true in
    record {
      distinct = rw (submitted_ids r id now) (ids_after-IsDistinct ids id w.distinct);
      known = rw (submitted_ids r id now) (ids_after-known all_known ids id w.known known);
      complete_iff =
          rw (submitted_ids r id now) (
            ground
              (arith, submitted_status r id now, w.complete_iff, HasRequired-ids_after ids id));
      stamped_iff = submitted_stamp r id now w;
    }

pub fresh_complete : (id : String) → ((fresh id).status ≡ status_complete) ↔ HasRequired []
unfolding required_document_ids
fresh_complete id = ground (arith, eq_iff status_pending status_complete)

-- The record that stands for "nothing submitted yet" is well formed.
pub fresh-IsWellFormed : (id : String) → IsWellFormed (fresh id)
fresh-IsWellFormed id = record {
  distinct = tt;
  known = tt;
  complete_iff = fresh_complete id;
  stamped_iff = ground (arith, eq_iff status_pending status_complete);
}
