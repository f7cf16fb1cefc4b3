-- ===== src/Dynamo/Client.antt =====
-- `dynamodb.Client` on one table, and the conversions of `attributevalue`.
use psr_pl.Base.{String, ◌≡◌, ◌≢◌, false, Option, none, some, ◌==◌, if◌then◌else◌}
use psr_pl.Go.{Sentinel, Error, is, Result, ok, err, Exec}

-- The `ConditionExpression` of a `PutItem`, on the table's key attribute.
pub data Condition : Type 0 where
  always attribute_not_exists attribute_exists : Condition

-- A table in state `D` of items. An item is nil in a `GetItemOutput` as `none`.
pub record Dynamo (D Item : Type 0) : Type 0 where
  pub get_item : String → Exec D (Option Item)
  pub put_item : Condition → Item → Exec D (Unit {0})

-- `MarshalMap` and `UnmarshalMap` at a struct type, and `MarshalMap` of a one-entry key map.
pub record Codec (A Item : Type 0) : Type 0 where
  pub marshal : A → Result Item
  pub unmarshal : Item → Result A
  pub marshal_key : String → Result String

-- An error made by a library wraps none of the services' own error values.
abbrev pub IsForeign : Error → Type 0
IsForeign e = (s : Sentinel) → is e s ≡ false

abbrev pub Meets {ℓ} : {Item : Type ℓ} → Condition → Option Item → Type ℓ
Meets always o = Unit
Meets attribute_not_exists o = o ≡ none
Meets attribute_exists o = o ≢ none

-- What DynamoDB documents of one caller's reads and conditional writes.
pub record IsDynamo {D Item : Type 0} (d : Dynamo D Item) (key : Item → String) : Type 0 where
  pub stored : D → String → Option Item
  pub stored_key : (t : D) (k : String) (i : Item) → stored t k ≡ some i → key i ≡ k
  pub get_reads :
      (k : String) (t : D) (o : Option Item) → (d.get_item k t).0 ≡ ok o → stored t k ≡ o
  pub get_keeps : (k : String) (t : D) (j : String) → stored (d.get_item k t).1 j ≡ stored t j
  pub get_fails : (k : String) (t : D) (e : Error) → (d.get_item k t).0 ≡ err e → IsForeign e
  pub put_checks :
      (c : Condition) (i : Item) (t : D) → (d.put_item c i t).0 ≡ ok tt → Meets c (stored t (key i))
  pub put_writes :
      (c : Condition) (i : Item) (t : D) (j : String)
      → (d.put_item c i t).0 ≡ ok tt
      → stored (d.put_item c i t).1 j ≡ (if key i == j then some i else stored t j)
  pub put_unmet :
      (c : Condition) (i : Item) (t : D) (j : String)
      → ¬ Meets c (stored t (key i))
      → stored (d.put_item c i t).1 j ≡ stored t j
  pub put_fails :
      (c : Condition) (i : Item) (t : D) (e : Error) → (d.put_item c i t).0 ≡ err e → IsForeign e

-- What `attributevalue` documents: a marshalled struct is read back, with its key attribute.
pub record IsCodec {A Item : Type 0} (codec : Codec A Item) (key : Item → String) (id : A → String)
    : Type 0 where
  pub key_text : (k l : String) → codec.marshal_key k ≡ ok l → l ≡ k
  pub key_fails : (k : String) (e : Error) → codec.marshal_key k ≡ err e → IsForeign e
  pub reads_back : (a : A) (i : Item) → codec.marshal a ≡ ok i → codec.unmarshal i ≡ ok a
  pub marshals_key : (a : A) (i : Item) → codec.marshal a ≡ ok i → key i ≡ id a
  pub unmarshals_key : (i : Item) (a : A) → codec.unmarshal i ≡ ok a → id a ≡ key i
  pub unmarshal_fails : (i : Item) (e : Error) → codec.unmarshal i ≡ err e → IsForeign e
  pub marshal_fails : (a : A) (e : Error) → codec.marshal a ≡ err e → IsForeign e
