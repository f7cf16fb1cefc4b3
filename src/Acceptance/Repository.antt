-- ===== src/Acceptance/Repository.antt =====
-- offer-acceptance-service/internal/offeracceptance/repository.go
use psr_pl.Base.{String, Option, some, ◌≡◌, arith, if◌then◌else◌}
use psr_pl.Go.{
  wrap, Result, ok, err, is_condition_failed, Exec, lift, wrapping, ◌>>=◌, esign_not_found,
  already_signed, sentinel,
}
use psr_pl.Dynamo.{
  Dynamo, Codec, IsDynamo, IsCodec, Messages, put_record, get_record, attribute_not_exists, Reads,
  Writes, stored_record, get_record-Reads, put_record-Writes, stored_record_id,
}
use psr_pl.Acceptance.Model.{EsignRecord}

-- The Go interface `Repository`.
pub record Repository (D : Type 0) : Type 0 where
  pub create : EsignRecord → Exec D (Unit {0})
  pub get : String → Exec D EsignRecord

abbrev pub messages : Messages
messages = record {
  marshalling = "marshalling esign record";
  writing = "creating esign record";
  marshalling_key = "marshalling key";
  retrieving = "retrieving esign record";
  unmarshalling = "unmarshalling esign record";
}

-- What the service relies on.
pub record IsRepository {D : Type 0} (repo : Repository D)
    (stored : D → String → Option EsignRecord) : Type 0 where
  pub create_writes : Writes stored (λ r. r.application_id) attribute_not_exists repo.create
  pub get_reads : Reads stored esign_not_found repo.get
  pub keyed : (t : D) (k : String) (r : EsignRecord) → stored t k ≡ some r → r.application_id ≡ k

-- `errors.As` comes before the wrapping: a refused condition is reported as "already signed".
abbrev signed_result : Result (Unit {0}) → Result (Unit {0})
signed_result (ok u) = ok u
signed_result (err e) =
    if is_condition_failed e
    then err (sentinel already_signed)
    else err (wrap "creating esign record" e)

module _ {D Item : Type 0} (d : Dynamo D Item) (codec : Codec EsignRecord Item) where
  abbrev put_signature : Item → Exec D (Unit {0})
  put_signature item t =
      let (result, u) = d.put_item attribute_not_exists item t in (signed_result result, u)

  abbrev create : EsignRecord → Exec D (Unit {0})
  create r = wrapping "marshalling esign record" (lift (codec.marshal r)) >>= put_signature

  unfoldable pub dynamo_repository : Repository D
  dynamo_repository = record { create = create; get = get_record d codec messages esign_not_found }

module _ {D Item : Type 0} (d : Dynamo D Item) (codec : Codec EsignRecord Item) where
  -- Up to the error value, `create` is the conditional write.
  create_ok :
      (r : EsignRecord) (t : D)
      → (create d codec r t).0 ≡ ok tt
      → (put_record d codec messages attribute_not_exists r t).0 ≡ ok tt
  unfolding put_record
  create_ok r t h = ground arith

  create_state :
      (r : EsignRecord) (t : D)
      → (create d codec r t).1 ≡ (put_record d codec messages attribute_not_exists r t).1
  unfolding put_record
  create_state r t = ground arith

module _ {D Item : Type 0} {d : Dynamo D Item} {codec : Codec EsignRecord Item}
    {key : Item → String} (law : IsDynamo d key)
    (codes : IsCodec codec key (λ (r : EsignRecord). r.application_id)) where
  create-Writes :
      Writes
        (stored_record messages law codes)
        (λ r. r.application_id)
        attribute_not_exists
        (create d codec)
  create-Writes =
      let w = put_record-Writes messages law codes attribute_not_exists in
      record {
        checks = λ a t h. w.checks a t (create_ok d codec a t h);
        writes =
            λ a t j h. rw (create_state d codec a t) (w.writes a t j (create_ok d codec a t h));
        blocked = λ a t j b. rw (create_state d codec a t) (w.blocked a t j b);
      }

  -- The repository over DynamoDB creates a signature only where there is none, and reads what is
  -- stored.
  pub signatures-IsRepository :
      IsRepository (dynamo_repository d codec) (stored_record messages law codes)
  unfolding dynamo_repository
  signatures-IsRepository = record {
    create_writes = create-Writes;
    get_reads = get_record-Reads messages law codes esign_not_found;
    keyed = stored_record_id messages law codes;
  }
