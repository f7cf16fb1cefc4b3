-- ===== src/OfferSelection/Repository.antt =====
-- pricing-orchestration-service/internal/offerselection/repository.go
use psr_pl.Base.{String, Option, some, ◌≡◌}
use psr_pl.Go.{Exec, selected_offer_not_found}
use psr_pl.Dynamo.{
  Dynamo, Codec, IsDynamo, IsCodec, Messages, put_record, get_record, attribute_not_exists,
  attribute_exists, Reads, Writes, stored_record, get_record-Reads, put_record-Writes,
  stored_record_id,
}
use psr_pl.OfferSelection.Model.{SelectedOffer}

-- The Go interface `Repository`.
pub record Repository (D : Type 0) : Type 0 where
  pub create : SelectedOffer → Exec D (Unit {0})
  pub get : String → Exec D SelectedOffer
  pub update : SelectedOffer → Exec D (Unit {0})

abbrev pub messages : String → Messages
messages writing = record {
  marshalling = "marshalling selected offer";
  writing = writing;
  marshalling_key = "marshalling key";
  retrieving = "retrieving selected offer";
  unmarshalling = "unmarshalling selected offer";
}

-- What the service relies on.
pub record IsRepository {D : Type 0} (repo : Repository D)
    (stored : D → String → Option SelectedOffer) : Type 0 where
  pub create_writes : Writes stored (λ o. o.application_id) attribute_not_exists repo.create
  pub get_reads : Reads stored selected_offer_not_found repo.get
  pub update_writes : Writes stored (λ o. o.application_id) attribute_exists repo.update
  pub keyed : (t : D) (k : String) (o : SelectedOffer) → stored t k ≡ some o → o.application_id ≡ k

module _ {D Item : Type 0} (d : Dynamo D Item) (codec : Codec SelectedOffer Item) where
  unfoldable pub dynamo_repository : Repository D
  dynamo_repository = record {
    create = put_record d codec (messages "creating selected offer") attribute_not_exists;
    get = get_record d codec (messages "") selected_offer_not_found;
    update = put_record d codec (messages "updating selected offer") attribute_exists;
  }

module _ {D Item : Type 0} {d : Dynamo D Item} {codec : Codec SelectedOffer Item}
    {key : Item → String} (law : IsDynamo d key)
    (codes : IsCodec codec key (λ (o : SelectedOffer). o.application_id)) where
  -- The repository over DynamoDB creates only where there is no record, reads what is stored, and
  -- writes the given record alone.
  pub offers-IsRepository :
      IsRepository (dynamo_repository d codec) (stored_record (messages "") law codes)
  unfolding dynamo_repository
  offers-IsRepository = record {
    create_writes =
        put_record-Writes (messages "creating selected offer") law codes attribute_not_exists;
    get_reads = get_record-Reads (messages "") law codes selected_offer_not_found;
    update_writes =
        put_record-Writes (messages "updating selected offer") law codes attribute_exists;
    keyed = stored_record_id (messages "") law codes;
  }
