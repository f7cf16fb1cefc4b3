-- ===== src/Dynamo/Contract.antt =====
-- The shared reads and writes fill their contracts on every table that behaves as DynamoDB
-- documents.
use psr_pl.Base.{
  Option-cases, inl, inr, String, ◌≡◌, true, Option, none, some, ◌==◌, if◌then◌else◌, arith, refl,
  ◌∙◌,
}
use psr_pl.Go.{Result-cases, Sentinel, Error, is, ok, err}
use psr_pl.Dynamo.Client.{
  Condition, always, attribute_not_exists, attribute_exists, Dynamo, Codec, Meets, IsDynamo,
  IsCodec,
}
use psr_pl.Dynamo.Record.{Messages, put_record, get_record, Checked, Blocks, Reads, Writes}

abbrev decoded : {Item A : Type 0} → Codec A Item → Option Item → Option A
decoded codec none = none
decoded codec (some i) = elim (codec.unmarshal i) [ ok a ↦ some a | err e ↦ none ]

module _ {D Item A : Type 0} {d : Dynamo D Item} {codec : Codec A Item} {key : Item → String}
    {id : A → String} (m : Messages) (law : IsDynamo d key) (codes : IsCodec codec key id) where
  -- The records that a table holds.
  abbrev pub stored_record : D → String → Option A
  stored_record t k = decoded codec (law.stored t k)

  get_found :
      (missing : Sentinel) (k : String) (t : D) (a : A)
      → (get_record d codec m missing k t).0 ≡ ok a
      → stored_record t k ≡ some a
  unfolding get_record
  get_found missing k t a h = grind (arith, codes.key_text, law.get_reads)

  get_not_found :
      (missing : Sentinel) (k : String) (t : D) (e : Error)
      → (get_record d codec m missing k t).0 ≡ err e
      → is e missing ≡ true
      → stored_record t k ≡ none
  unfolding get_record
  get_not_found missing k t e h f =
      grind (
        arith, codes.key_text, codes.key_fails, codes.unmarshal_fails, law.get_reads, law.get_fails,
      )

  get_keeps :
      (missing : Sentinel) (k : String) (t : D) (j : String)
      → stored_record (get_record d codec m missing k t).1 j ≡ stored_record t j
  unfolding get_record
  get_keeps missing k t j = grind (arith, law.get_keeps)

  -- `get_record` reads faithfully.
  pub get_record-Reads :
      (missing : Sentinel) → Reads stored_record missing (get_record d codec m missing)
  get_record-Reads missing = record {
    found = get_found missing;
    not_found = get_not_found missing;
    keeps = get_keeps missing;
  }

  put_checks :
      (c : Condition) (a : A) (t : D)
      → (put_record d codec m c a t).0 ≡ ok tt
      → Checked c (stored_record t (id a))
  unfolding put_record
  put_checks attribute_not_exists a t h =
      grind (arith, codes.marshals_key, law.put_checks attribute_not_exists)
  put_checks always a t h = tt
  put_checks attribute_exists a t h = tt

  put_writes :
      (c : Condition) (a : A) (t : D) (j : String)
      → (put_record d codec m c a t).0 ≡ ok tt
      → stored_record (put_record d codec m c a t).1 j
        ≡ (if id a == j then some a else stored_record t j)
  unfolding put_record
  put_writes c a t j h = grind (arith, codes.reads_back, codes.marshals_key, law.put_writes)

  occupied :
      (a b : A) (t : D) (i : Item)
      → codec.marshal a ≡ ok i
      → stored_record t (id a) ≡ some b
      → ¬ Meets attribute_not_exists (law.stored t (key i))
  occupied a b t i m h free = ground (arith, codes.marshals_key a i m)

  put_blocked :
      (c : Condition) (a : A) (t : D) (j : String)
      → Blocks c (stored_record t (id a))
      → stored_record (put_record d codec m c a t).1 j ≡ stored_record t j
  unfolding put_record
  put_blocked always a t j b = absurd b
  put_blocked attribute_exists a t j b = absurd b
  put_blocked attribute_not_exists a t j b = elim (Option-cases (stored_record t (id a))) [
    | inl empty ↦ absurd (ground arith)
    | inr (x, full) ↦ elim (Result-cases (codec.marshal a)) [
      | inl (i, marshalled) ↦
          let same = law.put_unmet attribute_not_exists i t j (occupied a x t i marshalled full) in
          ground arith
      | inr (e, failed) ↦ ground arith
    ]
  ]

  -- `put_record` writes the record under its own id and no other.
  pub put_record-Writes : (c : Condition) → Writes stored_record id c (put_record d codec m c)
  put_record-Writes c = record {
    checks = put_checks c;
    writes = put_writes c;
    blocked = put_blocked c;
  }

  -- A record that is read back carries the id that it was asked for by.
  pub stored_record_id : (t : D) (k : String) (a : A) → stored_record t k ≡ some a → id a ≡ k
  stored_record_id t k a h = readable (law.stored t k) refl h
    where
      readable : (o : Option Item) → law.stored t k ≡ o → decoded codec o ≡ some a → id a ≡ k
      readable none e g = cc
      readable (some i) e g = codes.unmarshals_key i a (ground arith) ∙ law.stored_key t k i e
