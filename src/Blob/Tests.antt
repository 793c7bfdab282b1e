-- ===== src/Blob/Tests.antt =====
-- Blob gas on a schedule, and uses of its theorems there.
use cardinal_evm.Prelude.{
  ℕ, ◌+◌, ◌-◌, ◌*◌, ◌^◌, ◌≤◌, ◌≡◌, refl, arith, false, true, some, List, [], ◌∷◌,
}
use cardinal_evm.Blob.{
  BlobConfig, Header, latest_blob_config, blob_config_at, fake_exponential, calc_excess_blob_gas,
}
use cardinal_evm.Blob.Exponential
use cardinal_evm.Blob.Excess
use cardinal_evm.Blob.Excess.{AnswersUpTo}

-- Cancun and Prague on Mainnet.
abbrev cancun : BlobConfig
cancun = record { activation_time = 1710338135; target = 3; max = 6; update_fraction = 3338477 }

abbrev prague : BlobConfig
prague = record { activation_time = 1746612311; target = 6; max = 9; update_fraction = 5007716 }

abbrev schedule : List BlobConfig
schedule = cancun ∷ prague ∷ []

latest_at_prague : latest_blob_config schedule 1750000000 ≡ some prague
unfolding latest_blob_config
latest_at_prague = refl

-- ChainConfig.BlobConfig stays at the oldest entry.
first_at_prague : blob_config_at schedule 1750000000 ≡ some cancun
unfolding blob_config_at
first_at_prague = refl

price_of_excess : fake_exponential 30 1 10000000 3338477 ≡ some 19
unfolding fake_exponential
price_of_excess = refl

-- Four blobs over an excess of two.
abbrev parent : Header
parent = record { excess_blob_gas = some (2 * 2 ^ 17); blob_gas_used = 4 * 2 ^ 17; base_fee = 7 }

fake_exponential-returns_example :
    (fuel : ℕ) × (answer : ℕ) × ((more : ℕ)
      → fake_exponential (fuel + more) 1 10000000 3338477 ≡ some answer)
    × (1 ≤ answer)
fake_exponential-returns_example =
    Exponential.fake_exponential-returns 1 10000000 3338477 (omega arith)

calc_excess-difference_example :
    calc_excess_blob_gas 30 false cancun parent ≡ some (2 * 2 ^ 17 + 4 * 2 ^ 17 - 3 * 2 ^ 17)
calc_excess-difference_example =
    Excess.calc_excess-difference 30 cancun parent (omega arith) (omega arith)

calc_excess-AnswersUpTo_example :
    AnswersUpTo (2 * 2 ^ 17 + 4 * 2 ^ 17) (λ fuel. calc_excess_blob_gas fuel true cancun parent)
calc_excess-AnswersUpTo_example =
    Excess.calc_excess-AnswersUpTo true cancun parent (omega arith) (omega arith) (omega arith)
      (omega arith) (omega arith) (omega arith)

below_target : calc_excess_blob_gas 0 false cancun (record parent { blob_gas_used = 0 }) ≡ some 0
unfolding calc_excess_blob_gas
below_target = refl
