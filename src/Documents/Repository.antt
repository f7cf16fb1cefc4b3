-- ===== src/Documents/Repository.antt =====
-- document-service/internal/document/repository.go
use psr_pl.Base.{String, Option, some, ◌≡◌}
use psr_pl.Go.{Exec, document_not_found}
use psr_pl.Dynamo.{
  Dynamo, Codec, IsDynamo, IsCodec, Messages, put_record, get_record, always, Reads, Writes,
  stored_record, get_record-Reads, put_record-Writes, stored_record_id,
}
use psr_pl.Documents.Model.{Record}

-- The Go interface `Repository`.
pub record Repository (D : Type 0) : Type 0 where
  pub get : String → Exec D Record
  pub save : Record → Exec D (Unit {0})

abbrev pub messages : Messages
messages = record {
  marshalling = "marshalling document record";
  writing = "saving document record";
  marshalling_key = "marshalling key";
  retrieving = "retrieving document record";
  unmarshalling = "unmarshalling document record";
}

-- What the service relies on.
pub record IsRepository {D : Type 0} (repo : Repository D) (stored : D → String → Option Record)
    : Type 0 where
  pub get_reads : Reads stored document_not_found repo.get
  pub save_writes : Writes stored (λ r. r.application_id) always repo.save
  pub keyed : (t : D) (k : String) (r : Record) → stored t k ≡ some r → r.application_id ≡ k

module _ {D Item : Type 0} (d : Dynamo D Item) (codec : Codec Record Item) where
  unfoldable pub dynamo_repository : Repository D
  dynamo_repository = record {
    get = get_record d codec messages document_not_found;
    save = put_record d codec messages always;
  }

module _ {D Item : Type 0} {d : Dynamo D Item} {codec : Codec Record Item} {key : Item → String}
    (law : IsDynamo d key) (codes : IsCodec codec key (λ (r : Record). r.application_id)) where
  -- The repository over DynamoDB reads what is stored, and saves the given record alone.
  pub documents-IsRepository :
      IsRepository (dynamo_repository d codec) (stored_record messages law codes)
  unfolding dynamo_repository
  documents-IsRepository = record {
    get_reads = get_record-Reads messages law codes document_not_found;
    save_writes = put_record-Writes messages law codes always;
    keyed = stored_record_id messages law codes;
  }
