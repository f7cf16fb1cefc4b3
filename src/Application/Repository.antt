-- ===== src/Application/Repository.antt =====
-- application-management-service/internal/application/repository.go
use psr_pl.Base.{String, Option, some, ◌≡◌}
use psr_pl.Go.{Exec, application_not_found}
use psr_pl.Dynamo.{
  Dynamo, Codec, IsDynamo, IsCodec, Messages, put_record, get_record, attribute_not_exists,
  attribute_exists, Reads, Writes, stored_record, get_record-Reads, put_record-Writes,
  stored_record_id,
}
use psr_pl.Application.Model.{Application}

-- The Go interface `Repository`.
pub record Repository (D : Type 0) : Type 0 where
  pub create : Application → Exec D (Unit {0})
  pub update : Application → Exec D (Unit {0})
  pub get : String → Exec D Application

abbrev pub messages : String → Messages
messages writing = record {
  marshalling = "marshalling application";
  writing = writing;
  marshalling_key = "marshalling key";
  retrieving = "retrieving application";
  unmarshalling = "unmarshalling application";
}

-- What the service relies on.
pub record IsRepository {D : Type 0} (repo : Repository D)
    (stored : D → String → Option Application) : Type 0 where
  pub create_writes : Writes stored (λ a. a.id) attribute_not_exists repo.create
  pub update_writes : Writes stored (λ a. a.id) attribute_exists repo.update
  pub get_reads : Reads stored application_not_found repo.get
  pub keyed : (t : D) (k : String) (a : Application) → stored t k ≡ some a → a.id ≡ k

module _ {D Item : Type 0} (d : Dynamo D Item) (codec : Codec Application Item) where
  unfoldable pub dynamo_repository : Repository D
  dynamo_repository = record {
    create = put_record d codec (messages "creating application") attribute_not_exists;
    update = put_record d codec (messages "updating application") attribute_exists;
    get = get_record d codec (messages "") application_not_found;
  }

module _ {D Item : Type 0} {d : Dynamo D Item} {codec : Codec Application Item}
    {key : Item → String} (law : IsDynamo d key)
    (codes : IsCodec codec key (λ (a : Application). a.id)) where
  -- The repository over DynamoDB creates an application only where there is none, updates the
  -- record of the application's own id and no other, and reads what is stored.
  pub applications-IsRepository :
      IsRepository (dynamo_repository d codec) (stored_record (messages "") law codes)
  unfolding dynamo_repository
  applications-IsRepository = record {
    create_writes =
        put_record-Writes (messages "creating application") law codes attribute_not_exists;
    update_writes = put_record-Writes (messages "updating application") law codes attribute_exists;
    get_reads = get_record-Reads (messages "") law codes application_not_found;
    keyed = stored_record_id (messages "") law codes;
  }
