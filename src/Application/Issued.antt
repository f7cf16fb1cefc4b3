-- ===== src/Application/Issued.antt =====
-- The sessions that have been issued, as the session store keeps them.
use psr_pl.Base.{
  ℕ, ◌<◌, String, Option, some, ◌==◌, if◌then◌else◌, ◌≡◌, arith, Option-cases, inl, inr,
}
use psr_pl.Go.{Result, ok, Result-cases}
use psr_pl.Dynamo.{Dynamo, Codec, IsDynamo, IsCodec, always, stored_record, put_record-Writes}
use psr_pl.Application.Sessions.{
  SessionStore, SessionRecord, session_item_id, session_record, unix, messages, create, validate,
  dynamo_session_store,
}

-- The session of a token, where the records are kept by their item id.
abbrev pub issued :
    {D : Type 0} → (D → String → Option SessionRecord) → D → String → Option SessionRecord
issued stored t token = stored t (session_item_id token)

-- What the service relies on: a new session is stored for its token alone, a token that passes was
-- issued and has not expired, and checking one changes no session.
pub record IsSessionStore {D : Type 0} (store : SessionStore D)
    (stored : D → String → Option SessionRecord) : Type 0 where
  pub creates :
      (random : Result String) (now : ℕ) (id : String) (ttl : ℕ) (t : D) (token : String)
      → (store.create random now id ttl t).0 ≡ ok token
      → (random ≡ ok token)
        × ((j : String)
            → stored (store.create random now id ttl t).1 j ≡ (
                if session_item_id token == j
                then some (session_record token id now ttl)
                else stored t j))
  pub validates :
      (now : ℕ) (token id : String) (t : D)
      → (store.validate now token t).0 ≡ ok id
      → (r : SessionRecord) × (issued stored t token ≡ some r)
        × (r.application_id ≡ id)
        × (unix now < r.expires_at)
  pub keeps :
      (now : ℕ) (token : String) (t : D) (j : String)
      → stored (store.validate now token t).1 j ≡ stored t j

module _ {D Item : Type 0} {d : Dynamo D Item} {codec : Codec SessionRecord Item}
    {key : Item → String} (law : IsDynamo d key)
    (codes : IsCodec codec key (λ (r : SessionRecord). r.id)) where
  creates :
      (random : Result String) (now : ℕ) (id : String) (ttl : ℕ) (t : D) (token : String)
      → (create d codec random now id ttl t).0 ≡ ok token
      → (random ≡ ok token)
        × ((j : String)
            → stored_record messages law codes (create d codec random now id ttl t).1 j ≡ (
                if session_item_id token == j
                then some (session_record token id now ttl)
                else stored_record messages law codes t j))
  unfolding create
  creates random now id ttl t token h =
      let made = put_record-Writes messages law codes always in
      let new = session_record token id now ttl in
      (ground arith, λ j. ground (arith, made.writes new t j))

  validates :
      (now : ℕ) (token id : String) (t : D)
      → (validate d codec now token t).0 ≡ ok id
      → (r : SessionRecord) × (issued (stored_record messages law codes) t token ≡ some r)
        × (r.application_id ≡ id)
        × (unix now < r.expires_at)
  unfolding validate
  validates now token id t h = elim (Result-cases (codec.marshal_key (session_item_id token))) [
    | inl (k, keyed) ↦ elim (Result-cases (d.get_item k t).0) [
      | inl (o, got) ↦ elim (Option-cases o) [
        | inl empty ↦ absurd (ground arith)
        | inr (i, full) ↦ elim (Result-cases (codec.unmarshal i)) [
          | inl (r, decoded) ↦ (
            r,
            ground (arith, law.get_reads k t o got, codes.key_text (session_item_id token) k keyed),
            ground arith,
            ground arith,
          )
          | inr (e, failed) ↦ absurd (ground arith)
        ]
      ]
      | inr (e, failed) ↦ absurd (ground arith)
    ]
    | inr (e, failed) ↦ absurd (ground arith)
  ]

  keeps :
      (now : ℕ) (token : String) (t : D) (j : String)
      → stored_record messages law codes (validate d codec now token t).1 j
        ≡ stored_record messages law codes t j
  unfolding validate
  keeps now token t j = grind (arith, law.get_keeps)

  -- The session store over DynamoDB keeps a new session for its token alone, and a token passes only
  -- if a session for it is stored that has not expired.
  pub sessions-IsSessionStore :
      IsSessionStore (dynamo_session_store d codec) (stored_record messages law codes)
  unfolding dynamo_session_store
  sessions-IsSessionStore = record { creates = creates; validates = validates; keeps = keeps }
