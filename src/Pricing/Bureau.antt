-- ===== src/Pricing/Bureau.antt =====
-- pricing-orchestration-service/internal/pricing/creditbureau.go, with the 32-bit FNV-1a of
-- `hash/fnv` over the UTF-8 bytes of the application id.
use Prim.Native.Nat.{bit_xor}
use Prim.Native.Char.{code}
use psr_pl.Base.{
  ℕ, ◌+◌, ◌*◌, ◌/◌, ◌%◌, ◌^◌, ◌≡◌, refl, String, List, [], ◌∷◌, ◌++◌, arith, ltb, if◌then◌else◌,
}
use psr_pl.Go.Int64.{pos, ◌≤ℤ◌, ◌<ℤ◌}
use psr_pl.Pricing.Model.{CreditSummary}

abbrev utf8 : ℕ → List ℕ
utf8 c =
    if ltb c 0x80
    then c ∷ []
    else if ltb c 0x800
    then (0xC0 + c / 64) ∷ (0x80 + c % 64) ∷ []
    else if ltb c 0x10000
    then (0xE0 + c / 4096) ∷ (0x80 + c / 64 % 64) ∷ (0x80 + c % 64) ∷ []
    else (0xF0 + c / 262144) ∷ (0x80 + c / 4096 % 64) ∷ (0x80 + c / 64 % 64) ∷ (0x80 + c % 64) ∷ []

bytes : String → List ℕ
bytes String.[] = []
bytes (String.◌∷◌ c s) = utf8 (code c) ++ bytes s

fnv_write : ℕ → List ℕ → ℕ
fnv_write h [] = h
fnv_write h (b ∷ bs) = fnv_write (bit_xor h b * 16777619 % 2 ^ 32) bs

sum32 : String → ℕ
unfolding bytes fnv_write
sum32 s = fnv_write 2166136261 (bytes s)

unfoldable pub simulated_credit_pull : String → String → CreditSummary
unfolding sum32
simulated_credit_pull application_id source = record {
  score = pos (580 + sum32 application_id % 240);
  source = source;
}

-- The published FNV-1a values of "" and "foobar".
fnv_tests : (sum32 "" ≡ 0x811c9dc5) × (sum32 "foobar" ≡ 0xbf9cf968)
unfolding sum32
fnv_tests = (refl, refl)

-- A simulated pull scores every application from 580 to 819, and alike for every source.
pub simulated_credit_pull_range :
    (application_id source other : String)
    → let pull = simulated_credit_pull application_id source in
      (pos 580 ≤ℤ pull.score)
      × (pull.score <ℤ pos 820)
      × ((simulated_credit_pull application_id other).score ≡ pull.score)
unfolding simulated_credit_pull
simulated_credit_pull_range application_id source other = (omega arith, omega arith, refl)
