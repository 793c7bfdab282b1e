-- ===== src/Config/Tests.antt =====
-- The schedule of Mainnet, and uses of the theorems on it.
use cardinal_evm.Prelude.{◌≡◌, ◌≢◌, refl, arith, true, false, some, none}
use cardinal_evm.Config.{
  ChainConfig, is_homestead, is_eip150, is_eip155, is_eip158, is_byzantium, is_constantinople,
  is_istanbul, is_berlin, is_london, is_block_forked,
}
use cardinal_evm.Config.Order
use cardinal_evm.Config.Order.{Implies, check_config_fork_order}
use cardinal_evm.Config.Compatible
use cardinal_evm.Config.Compatible.Rewind
use cardinal_evm.Config.Compatible.Rewind.{check_compatible_at}
use cardinal_evm.Config.Compatible.{
  SameBlocks, SameTimes, check_compatible, dao_fork_support, new_block_compat_error, berlin_fork,
  homestead_fork, cancun_fork, new_timestamp_compat_error,
}

abbrev mainnet : ChainConfig
mainnet = record {
  chain_id = some 1;
  dao_fork_support = true;
  homestead_block = some 1150000;
  dao_fork_block = some 1920000;
  eip150_block = some 2463000;
  eip155_block = some 2675000;
  eip158_block = some 2675000;
  byzantium_block = some 4370000;
  constantinople_block = some 7280000;
  petersburg_block = some 7280000;
  istanbul_block = some 9069000;
  muir_glacier_block = some 9200000;
  berlin_block = some 12244000;
  london_block = some 12965000;
  shanghai_block = none;
  cancun_block = none;
  napoli_block = none;
  pip30_block = none;
  prague_block = none;
  osaka_block = none;
  shanghai_time = some 1681338455;
  cancun_time = some 1710338135;
  prague_time = none;
  osaka_time = none;
  terminal_total_difficulty = some 58750000000000000000000;
}

-- As it was extended later.
abbrev with_prague : ChainConfig
with_prague = record mainnet { prague_time = some 1746612311 }

in_order : check_config_fork_order mainnet ≡ true
unfolding check_config_fork_order
in_order = refl

london_before_berlin :
    check_config_fork_order (record mainnet { london_block = some 12000000 }) ≡ false
unfolding check_config_fork_order
london_before_berlin = refl

head_is_early : check_compatible mainnet with_prague (some 19000000) (some 1720000000) ≡ none
unfolding check_compatible
head_is_early = refl

head_is_late :
    check_compatible mainnet
      (record mainnet { berlin_block = none })
      (some 19000000)
      (some 1720000000)
    ≡ some (new_block_compat_error berlin_fork (some 12244000) none)
unfolding check_compatible new_block_compat_error
head_is_late = refl

check_config_fork_order-Implies_example :
    Implies (is_eip150 mainnet (some 13000000)) (is_homestead mainnet (some 13000000))
    × Implies (is_eip155 mainnet (some 13000000)) (is_eip150 mainnet (some 13000000))
    × Implies (is_eip158 mainnet (some 13000000)) (is_eip155 mainnet (some 13000000))
    × Implies (is_byzantium mainnet (some 13000000)) (is_eip158 mainnet (some 13000000))
    × Implies (is_constantinople mainnet (some 13000000)) (is_byzantium mainnet (some 13000000))
    × Implies
        (is_block_forked (some 7280000) (some 13000000))
        (is_constantinople mainnet (some 13000000))
    × Implies (is_istanbul mainnet (some 13000000)) (is_block_forked (some 7280000) (some 13000000))
    × Implies (is_berlin mainnet (some 13000000)) (is_istanbul mainnet (some 13000000))
    × Implies (is_london mainnet (some 13000000)) (is_berlin mainnet (some 13000000))
check_config_fork_order-Implies_example =
    Order.check_config_fork_order-Implies mainnet (some 13000000) in_order

check_compatible-past_example :
    SameBlocks (some 1150000) (some 1150000) 18000000
    × SameBlocks (some 1920000) (some 1920000) 18000000
    × SameBlocks (some 2463000) (some 2463000) 18000000
    × SameBlocks (some 2675000) (some 2675000) 18000000
    × SameBlocks (some 2675000) (some 2675000) 18000000
    × SameBlocks (some 4370000) (some 4370000) 18000000
    × SameBlocks (some 7280000) (some 7280000) 18000000
    × SameBlocks (some 9069000) (some 9069000) 18000000
    × SameBlocks (some 9200000) (some 9200000) 18000000
    × SameBlocks (some 12244000) (some 12244000) 18000000
    × SameBlocks (some 12965000) (some 12965000) 18000000
    × SameTimes (some 1681338455) (some 1681338455) 1700000000
    × SameTimes (some 1710338135) (some 1710338135) 1700000000
    × SameTimes none (some 1746612311) 1700000000
    × SameTimes none none 1700000000
check_compatible-past_example =
    Compatible.check_compatible-past mainnet with_prague 19000000 1720000000 18000000 1700000000
      head_is_early (omega arith) (omega arith)

-- Small numbers, for runs of the search.
abbrev early : ChainConfig
early = record mainnet { homestead_block = some 3; dao_fork_block = some 5; eip150_block = some 7 }

rewinds_below_homestead :
    check_compatible_at early
      (record early { homestead_block = some 4; eip150_block = some 6 })
      9
      none
    ≡ some (some (new_block_compat_error homestead_fork (some 3) (some 4)))
unfolding check_compatible_at new_block_compat_error
rewinds_below_homestead = refl

check_compatible_at-ne-none_example :
    check_compatible_at early (record early { homestead_block = some 4 }) 9 none ≢ none
check_compatible_at-ne-none_example =
    Rewind.check_compatible_at-ne-none early (record early { homestead_block = some 4 }) 9 none
