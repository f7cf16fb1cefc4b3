-- ===== src/Dynamo/Memory.antt =====
-- A table in memory: it shows that the laws asked of DynamoDB can be met, and runs the tests.
use psr_pl.Base.{
  List, [], ◌∷◌, String, ◌≡◌, Bool, true, false, Option, none, some, ◌==◌, if◌then◌else◌, eq_iff,
  arith, refl,
}
use psr_pl.Go.{Sentinel, Error, condition_failed, is, ok, err}
use psr_pl.Dynamo.Client.{
  Condition, always, attribute_not_exists, attribute_exists, Dynamo, Codec, Meets, IsDynamo,
  IsCodec,
}

-- The records that were written, the latest first: a later write hides an earlier one.
abbrev pub Table : Type 0 → Type 0
Table A = List A

abbrev meets : {A : Type 0} → Condition → Option A → Bool
meets always o = true
meets attribute_not_exists none = true
meets attribute_not_exists (some a) = false
meets attribute_exists none = false
meets attribute_exists (some a) = true

module _ {A : Type 0} (id : A → String) where
  abbrev pub look : Table A → String → Option A
  look [] k = none
  look (a ∷ t) k = if id a == k then some a else look t k

  pub look_id : (t : Table A) (k : String) (a : A) → look t k ≡ some a → id a ≡ k
  look_id [] k a h = cc
  look_id (b ∷ t) k a h = ground (arith, eq_iff (id b) k, look_id t k a)

  abbrev pub memory : Dynamo (Table A) A
  memory = record {
    get_item = λ k t. (ok (look t k), t);
    put_item =
        λ c a t. if meets c (look t (id a)) then (ok tt, a ∷ t) else (err condition_failed, t);
  }

  abbrev pub verbatim : Codec A A
  verbatim = record { marshal = ok; unmarshal = ok; marshal_key = ok }

  pub verbatim-IsCodec : IsCodec verbatim id id
  verbatim-IsCodec = record {
    key_text = ground arith;
    key_fails = λ k e h. cc;
    reads_back = ground arith;
    marshals_key = ground arith;
    unmarshals_key = ground arith;
    unmarshal_fails = λ i e h. cc;
    marshal_fails = λ i e h. cc;
  }

  pub put_checks :
      (c : Condition) (a : A) (t : Table A)
      → (memory.put_item c a t).0 ≡ ok tt
      → Meets c (look t (id a))
  put_checks always a t h = tt
  put_checks attribute_not_exists a t h = ground arith
  put_checks attribute_exists a t h = ground arith

  pub put_writes :
      (c : Condition) (a : A) (t : Table A) (j : String)
      → (memory.put_item c a t).0 ≡ ok tt
      → look (memory.put_item c a t).1 j ≡ (if id a == j then some a else look t j)
  put_writes c a t j h = ground arith

  pub put_unmet :
      (c : Condition) (a : A) (t : Table A) (j : String)
      → ¬ Meets c (look t (id a))
      → look (memory.put_item c a t).1 j ≡ look t j
  put_unmet always a t j h = absurd (h tt)
  put_unmet attribute_not_exists a t j h = ground arith
  put_unmet attribute_exists a t j h = ground arith

  pub put_fails :
      (c : Condition) (a : A) (t : Table A) (e : Error)
      → (memory.put_item c a t).0 ≡ err e
      → (s : Sentinel) → is e s ≡ false
  put_fails c a t e h s = ground arith

  pub get_reads :
      (k : String) (t : Table A) (o : Option A) → (memory.get_item k t).0 ≡ ok o → look t k ≡ o
  get_reads k t o h = ground arith

  pub get_fails :
      (k : String) (t : Table A) (e : Error)
      → (memory.get_item k t).0 ≡ err e
      → (s : Sentinel) → is e s ≡ false
  get_fails k t e h = cc

  -- `abbrev`, so that the stored records compute in tests.
  abbrev pub memory-IsDynamo : IsDynamo memory id
  memory-IsDynamo = record {
    stored = look;
    stored_key = look_id;
    get_reads = get_reads;
    get_keeps = λ k t j. refl;
    get_fails = get_fails;
    put_checks = put_checks;
    put_writes = put_writes;
    put_unmet = put_unmet;
    put_fails = put_fails;
  }
