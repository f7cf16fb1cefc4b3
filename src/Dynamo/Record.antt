-- ===== src/Dynamo/Record.antt =====
-- The reads and writes of one record type, which every repository of the services makes alike, and
-- the contract that they fill.
use psr_pl.Base.{String, ◌≡◌, true, Option, none, some, ◌==◌, if◌then◌else◌}
use psr_pl.Go.{Sentinel, Error, sentinel, is, ok, err, Exec, raise, lift, wrapping, ◌>>=◌}
use psr_pl.Dynamo.Client.{Condition, attribute_not_exists, Dynamo, Codec}

-- The texts of a repository's error messages.
pub record Messages : Type 0 where
  pub marshalling : String
  pub writing : String
  pub marshalling_key : String
  pub retrieving : String
  pub unmarshalling : String

module _ {D Item A : Type 0} (d : Dynamo D Item) (codec : Codec A Item) (m : Messages) where
  unfoldable pub put_record : Condition → A → Exec D (Unit {0})
  put_record condition a = do
    item ← wrapping m.marshalling (lift (codec.marshal a))
    wrapping m.writing (d.put_item condition item)

  abbrev found_item : Sentinel → Option Item → Exec D A
  found_item missing none = raise (sentinel missing)
  found_item missing (some item) = wrapping m.unmarshalling (lift (codec.unmarshal item))

  unfoldable pub get_record : Sentinel → String → Exec D A
  get_record missing id = do
    key ← wrapping m.marshalling_key (lift (codec.marshal_key id))
    out ← wrapping m.retrieving (d.get_item key)
    found_item missing out

-- The contract of a read: it returns what is stored, says so where nothing is stored, and changes
-- nothing.
pub record Reads {D A : Type 0} (stored : D → String → Option A) (missing : Sentinel)
    (get : String → Exec D A) : Type 0 where
  pub found : (k : String) (t : D) (a : A) → (get k t).0 ≡ ok a → stored t k ≡ some a
  pub not_found :
      (k : String) (t : D) (e : Error)
      → (get k t).0 ≡ err e
      → is e missing ≡ true
      → stored t k ≡ none
  pub keeps : (k : String) (t : D) (j : String) → stored (get k t).1 j ≡ stored t j

-- What a conditional write has seen of the record: that there is none, if it wants none. (An item
-- that is there need not be readable.)
abbrev pub Checked {ℓ} : {A : Type ℓ} → Condition → Option A → Type ℓ
Checked attribute_not_exists o = o ≡ none
Checked _ o = Unit

-- A record that is there blocks a write that wants none.
abbrev pub Blocks {ℓ} : {A : Type ℓ} → Condition → Option A → Type 0
Blocks attribute_not_exists (some a) = Unit
Blocks _ o = ⊥

-- The contract of a write: on success the condition held, and the record alone has changed. Where
-- the record blocks it nothing changes, whatever the call answers.
pub record Writes {D A : Type 0} (stored : D → String → Option A) (id : A → String)
    (condition : Condition) (put : A → Exec D (Unit {0})) : Type 0 where
  pub checks : (a : A) (t : D) → (put a t).0 ≡ ok tt → Checked condition (stored t (id a))
  pub writes :
      (a : A) (t : D) (j : String)
      → (put a t).0 ≡ ok tt
      → stored (put a t).1 j ≡ (if id a == j then some a else stored t j)
  pub blocked :
      (a : A) (t : D) (j : String)
      → Blocks condition (stored t (id a))
      → stored (put a t).1 j ≡ stored t j
