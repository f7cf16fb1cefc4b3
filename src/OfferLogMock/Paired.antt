-- ===== src/OfferLogMock/Paired.antt =====
-- The two keys of an offer lead to one cell, so a status set by the one is seen by the other.
use psr_pl.Base.{
  ℕ, zero, suc, String, true, none, some, List, [], ◌∷◌, ◌++◌, length, ◌≡◌, inl, inr, refl, arith,
  eq_iff, eq_refl, Option-cases, Bool-cases,
}
use psr_pl.OfferLogMock.Store.{
  Offer, Store, look, cell, set_cell, seed, minted, mints, used_fixture, active_fixture,
  empty_store, new_store, resolve, set_status,
}

-- The key leads to an offer, and so does this offer's intake id, to the same cell.
abbrev pub LeadsHome : Store → ℕ → Type 0
LeadsHome s a = (o : Offer) × (cell s.heap a ≡ some o) × (look s.by_key o.intake_id ≡ some a)

abbrev pub IsPaired : Store → Type 0
IsPaired s = (k : String) (a : ℕ) → look s.by_key k ≡ some a → LeadsHome s a

cell-length : (h : List Offer) (o : Offer) → cell (h ++ o ∷ []) (length h) ≡ some o
cell-length [] o = refl
cell-length (x ∷ h) o = cell-length h o

cell-append :
    (h : List Offer) (o x : Offer) (a : ℕ) → cell h a ≡ some x → cell (h ++ o ∷ []) a ≡ some x
cell-append [] o x a e = ground arith
cell-append (y ∷ h) o x zero e = e
cell-append (y ∷ h) o x (suc a) e = cell-append h o x a e

set_cell_same :
    (h : List Offer) (a : ℕ) (status : String) (o : Offer)
    → cell h a ≡ some o
    → cell (set_cell h a status) a ≡ some (record o { status = status })
set_cell_same [] a status o e = ground arith
set_cell_same (x ∷ h) zero status o e = ground arith
set_cell_same (x ∷ h) (suc a) status o e = set_cell_same h a status o e

-- Setting a status keeps every intake id in its cell.
set_cell_intake :
    (h : List Offer) (a b : ℕ) (status : String) (o : Offer)
    → cell h b ≡ some o
    → (p : Offer) × (cell (set_cell h a status) b ≡ some p) × (p.intake_id ≡ o.intake_id)
set_cell_intake [] a b status o e = ground arith
set_cell_intake (x ∷ h) zero zero status o e = (record x { status = status }, refl, ground arith)
set_cell_intake (x ∷ h) zero (suc b) status o e = (o, e, refl)
set_cell_intake (x ∷ h) (suc a) zero status o e = (x, refl, ground arith)
set_cell_intake (x ∷ h) (suc a) (suc b) status o e = set_cell_intake h a b status o e

-- A new offer under two keys that were free.
seed-IsPaired :
    (token : String) (o : Offer) (s : Store)
    → look s.by_key token ≡ none
    → look s.by_key o.intake_id ≡ none
    → IsPaired s
    → IsPaired (seed token o s)
seed-IsPaired token o s free fresh paired k a h = elim (Option-cases (look s.by_key k)) [
  | inl new ↦ (o, ground (arith, cell-length s.heap o), ground (arith, eq_refl o.intake_id))
  | inr (b, old) ↦
      let (x, held, home) = paired k b old in
      (
        x,
        ground (arith, cell-append s.heap o x b held, eq_iff o.intake_id k, eq_iff token k),
        ground (
          arith,
          eq_iff o.intake_id k,
          eq_iff token k,
          eq_iff o.intake_id x.intake_id,
          eq_iff token x.intake_id,
        ),
      )
]

-- Resolving a token keeps the two keys of every offer together, if a minted intake id is not in use.
resolve-IsPaired :
    (token : String) (random : String × String) (s : Store)
    → look s.by_key (minted random).intake_id ≡ none
    → IsPaired s
    → IsPaired (resolve token random s).1
unfolding resolve
resolve-IsPaired token random s fresh paired = elim (Option-cases (look s.by_key token)) [
  | inl free ↦ elim (Bool-cases (mints token)) [
    | inl minting ↦ rw (free, minting) (seed-IsPaired token (minted random) s free fresh paired)
    | inr unknown ↦ rw (free, unknown) paired
  ]
  | inr (a, known) ↦ rw known paired
]

set_status-IsPaired :
    (intake_id status : String) (s : Store)
    → IsPaired s
    → IsPaired (set_status intake_id status s).1
unfolding set_status
set_status-IsPaired intake_id status s paired = elim (Option-cases (look s.by_key intake_id)) [
  | inl unknown ↦ rw unknown paired
  | inr (a, known) ↦ rw known (kept a)
]
  where
    kept : (a : ℕ) → IsPaired (record s { heap = set_cell s.heap a status })
    kept a k b h =
        let (o, held, home) = paired k b h in
        let (p, there, same) = set_cell_intake s.heap a b status o held in (p, there, ground arith)

empty-IsPaired : IsPaired empty_store
empty-IsPaired k a h = ground arith

new_store-IsPaired : IsPaired new_store
new_store-IsPaired =
    let first = seed "VALID-INVITE-123" active_fixture empty_store in
    seed-IsPaired "USED-INVITE-456" used_fixture first refl refl
      (seed-IsPaired "VALID-INVITE-123" active_fixture empty_store refl refl empty-IsPaired)

-- The stores that requests can lead to, where the random ids do not repeat.
pub data Reached : Store → Type 0 where
  started : Reached new_store
  asked :
      (token : String) (random : String × String) (s : Store)
      → Reached s
      → look s.by_key (minted random).intake_id ≡ none
      → Reached (resolve token random s).1
  put :
      (intake_id status : String) (s : Store)
      → Reached s
      → Reached (set_status intake_id status s).1

-- In every store that requests lead to, the intake id of an offer leads to the cell that each of the
-- offer's keys leads to.
pub Reached-IsPaired : {s : Store} → Reached s → IsPaired s
Reached-IsPaired started = new_store-IsPaired
Reached-IsPaired (asked token random s r fresh) =
    resolve-IsPaired token random s fresh (Reached-IsPaired r)
Reached-IsPaired (put intake_id status s r) =
    set_status-IsPaired intake_id status s (Reached-IsPaired r)

-- In a store that requests lead to, a status set by the intake id of an offer is what every key of this offer then leads to: the
-- invitation token resolves to the same offer, with the new status and nothing else changed.
pub set_status_seen :
    (token status : String) (random : String × String) (s : Store) (a : ℕ) (o : Offer)
    → Reached s
    → look s.by_key token ≡ some a
    → cell s.heap a ≡ some o
    → let (found, after) = set_status o.intake_id status s in
      (found ≡ true)
      × (resolve token random after ≡ (some a, after))
      × (cell after.heap a ≡ some (record o { status = status }))
unfolding resolve set_status
set_status_seen token status random s a o reached known held =
    let (x, there, home) = Reached-IsPaired reached token a known in
    ground (arith, set_cell_same s.heap a status o held)

-- No key is added or moved with a status.
pub look-set_status :
    (intake_id status k : String) (s : Store)
    → look (set_status intake_id status s).1.by_key k ≡ look s.by_key k
unfolding set_status
look-set_status intake_id status k s = elim (Option-cases (look s.by_key intake_id)) [
  | inl unknown ↦ ground arith
  | inr (a, known) ↦ ground arith
]
