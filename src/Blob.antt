-- ===== src/Blob.antt =====
-- eips/eip4844/eip.go: the blob gas of a block and its price.
pub mod Exponential
pub mod Excess
pub mod Tests
use cardinal_evm.Prelude.{
  ℕ, zero, suc, ◌+◌, ◌-◌, ◌*◌, ◌/◌, ◌^◌, ◌==◌, ltb, leb, Bool, if◌then◌else◌, Option, none, some,
  ◌>>=◌, List, [], ◌∷◌, add64, sub64, mul64,
}

-- The constants of params/protocol_params.go.
abbrev pub blob_tx_blob_gas_per_blob : ℕ
blob_tx_blob_gas_per_blob = 2 ^ 17

abbrev pub blob_tx_min_blob_gasprice : ℕ
blob_tx_min_blob_gasprice = 1

abbrev pub blob_tx_blob_gasprice_update_fraction : ℕ
blob_tx_blob_gasprice_update_fraction = 2225652

abbrev pub blob_base_cost : ℕ
blob_base_cost = 2 ^ 13

-- BlobConfig of params/config.go, an entry of a chain's schedule.
pub record BlobConfig : Type 0 where
  pub activation_time : ℕ
  pub target : ℕ
  pub max : ℕ
  pub update_fraction : ℕ

-- The fields of the parent that are read: the excess and the gas used are there together or not at all.
pub record Header : Type 0 where
  pub excess_blob_gas : Option ℕ
  pub blob_gas_used : ℕ
  pub base_fee : ℕ

-- The loop over the schedule, with the latest entry so far.
unfoldable pub latest_from : Option BlobConfig → List BlobConfig → ℕ → Option BlobConfig
latest_from latest [] time = latest
latest_from latest (config ∷ schedule) time =
    latest_from (if leb config.activation_time time then some config else latest) schedule time

unfoldable pub latest_blob_config : List BlobConfig → ℕ → Option BlobConfig
unfolding latest_from
latest_blob_config schedule time = latest_from none schedule time

-- ChainConfig.BlobConfig of params/config.go.
unfoldable pub blob_config_at : List BlobConfig → ℕ → Option BlobConfig
blob_config_at [] time = none
blob_config_at (config ∷ schedule) time =
    let rest = blob_config_at schedule time in
    if ltb config.activation_time time then some config else rest

-- The loop of fakeExponential, from the `i`th term; its rounds are bounded by the fuel, and `none` is
-- fuel that ran out.
unfoldable pub exponential_loop : ℕ → ℕ → ℕ → ℕ → ℕ → ℕ → Option ℕ
exponential_loop zero numerator denominator i accum output = none
exponential_loop (suc fuel) numerator denominator i accum output =
    let rest =
      exponential_loop fuel numerator denominator (i + 1) (accum * numerator / denominator / i)
        (output + accum) in
    if ltb 0 accum then rest else some (output / denominator)

-- A denominator of 0, by which the sum is divided, is a panic: `none` too.
unfoldable pub fake_exponential : ℕ → ℕ → ℕ → ℕ → Option ℕ
unfolding exponential_loop
fake_exponential fuel factor numerator denominator =
    if denominator == 0
    then none
    else exponential_loop fuel numerator denominator 1 (factor * denominator) 0

unfoldable pub blob_base_fee : ℕ → BlobConfig → ℕ → Option ℕ
unfolding fake_exponential
blob_base_fee fuel c excess =
    fake_exponential fuel blob_tx_min_blob_gasprice excess c.update_fraction

unfoldable pub blob_price : ℕ → BlobConfig → ℕ → Option ℕ
unfolding blob_base_fee
blob_price fuel c excess = do f ← blob_base_fee fuel c excess; some (f * blob_tx_blob_gas_per_blob)

unfoldable pub calc_blob_fee : ℕ → Option ℕ → Option (Option ℕ)
unfolding fake_exponential
calc_blob_fee fuel none = some none
calc_blob_fee fuel (some excess) = do
  fee ← fake_exponential fuel blob_tx_min_blob_gasprice excess blob_tx_blob_gasprice_update_fraction
  some (some fee)

abbrev pub parent_excess : Header → ℕ
parent_excess h = elim h.excess_blob_gas [ none ↦ 0 | some excess ↦ excess ]

abbrev pub parent_used : Header → ℕ
parent_used h = elim h.excess_blob_gas [ none ↦ 0 | some excess ↦ h.blob_gas_used ]

-- EIP-7918's share of the gas used; the difference of the ints wraps, and `none` is a panic.
unfoldable pub scaled_excess : BlobConfig → ℕ → Option ℕ
scaled_excess c used = if c.max == 0 then none else some (mul64 used (sub64 c.max c.target) / c.max)

unfoldable pub reserved_excess : BlobConfig → Header → ℕ → Option ℕ
unfolding scaled_excess
reserved_excess c parent price =
    let excess = add64 (parent_excess parent) (parent_used parent) in
    let scaled =
      scaled_excess c (parent_used parent) >>= λ share. some (add64 (parent_excess parent) share) in
    if ltb price (blob_base_cost * parent.base_fee)
    then scaled
    else some (sub64 excess (mul64 c.target blob_tx_blob_gas_per_blob))

-- `none` is fuel that ran out, or a panic.
unfoldable pub calc_excess_blob_gas : ℕ → Bool → BlobConfig → Header → Option ℕ
unfolding blob_price reserved_excess
calc_excess_blob_gas fuel is_osaka c parent =
    let excess = add64 (parent_excess parent) (parent_used parent) in
    let target_gas = mul64 c.target blob_tx_blob_gas_per_blob in
    let reserved =
      blob_price fuel c (parent_excess parent) >>= λ price. reserved_excess c parent price in
    if ltb excess target_gas
    then some 0
    else if is_osaka
    then reserved
    else some (sub64 excess target_gas)
