-- ===== src/Config.antt =====
-- params/config.go: when a chain's forks are active, the order of the forks, and the compatibility of two
-- configurations. A number is a big.Int that is not negative, and nil is none.
pub mod Compatible
pub mod Order
pub mod Tests
use cardinal_evm.Prelude.{
  ℕ, ◌-◌, ◌==◌, ltb, leb, Bool, true, false, not, ◌&&◌, ◌||◌, if◌then◌else◌, Option, none, some,
  List, [], ◌∷◌,
}
use cardinal_evm.Vm.Frame.{Rules}
use cardinal_evm.Vm.JumpTable.Validate.{ChainRules}

-- The fields that the forks depend on.
pub record ChainConfig : Type 0 where
  pub chain_id : Option ℕ
  pub dao_fork_support : Bool
  pub homestead_block : Option ℕ
  pub dao_fork_block : Option ℕ
  pub eip150_block : Option ℕ
  pub eip155_block : Option ℕ
  pub eip158_block : Option ℕ
  pub byzantium_block : Option ℕ
  pub constantinople_block : Option ℕ
  pub petersburg_block : Option ℕ
  pub istanbul_block : Option ℕ
  pub muir_glacier_block : Option ℕ
  pub berlin_block : Option ℕ
  pub london_block : Option ℕ
  pub shanghai_block : Option ℕ
  pub cancun_block : Option ℕ
  pub napoli_block : Option ℕ
  pub pip30_block : Option ℕ
  pub prague_block : Option ℕ
  pub osaka_block : Option ℕ
  pub shanghai_time : Option ℕ
  pub cancun_time : Option ℕ
  pub prague_time : Option ℕ
  pub osaka_time : Option ℕ
  pub terminal_total_difficulty : Option ℕ

unfoldable pub is_block_forked : Option ℕ → Option ℕ → Bool
is_block_forked (some s) (some head) = leb s head
is_block_forked s head = false

unfoldable pub is_timestamp_forked : Option ℕ → Option ℕ → Bool
is_timestamp_forked (some s) (some head) = leb s head
is_timestamp_forked s head = false

unfoldable pub config_block_equal : Option ℕ → Option ℕ → Bool
config_block_equal none none = true
config_block_equal none (some y) = false
config_block_equal (some x) none = false
config_block_equal (some x) (some y) = x == y

unfoldable pub config_timestamp_equal : Option ℕ → Option ℕ → Bool
config_timestamp_equal none none = true
config_timestamp_equal none (some y) = false
config_timestamp_equal (some x) none = false
config_timestamp_equal (some x) (some y) = x == y

unfoldable pub is_fork_block_incompatible : Option ℕ → Option ℕ → Option ℕ → Bool
unfolding is_block_forked config_block_equal
is_fork_block_incompatible s1 s2 head =
    (is_block_forked s1 head || is_block_forked s2 head) && not (config_block_equal s1 s2)

unfoldable pub is_fork_timestamp_incompatible : Option ℕ → Option ℕ → Option ℕ → Bool
unfolding is_timestamp_forked config_timestamp_equal
is_fork_timestamp_incompatible s1 s2 head =
    (is_timestamp_forked s1 head || is_timestamp_forked s2 head)
    && not (config_timestamp_equal s1 s2)

abbrev pub is_unset : Option ℕ → Bool
is_unset none = true
is_unset (some x) = false

unfoldable pub is_homestead : ChainConfig → Option ℕ → Bool
unfolding is_block_forked
is_homestead c num = is_block_forked c.homestead_block num

unfoldable pub is_dao_fork : ChainConfig → Option ℕ → Bool
unfolding is_block_forked
is_dao_fork c num = is_block_forked c.dao_fork_block num

unfoldable pub is_eip150 : ChainConfig → Option ℕ → Bool
unfolding is_block_forked
is_eip150 c num = is_block_forked c.eip150_block num

unfoldable pub is_eip155 : ChainConfig → Option ℕ → Bool
unfolding is_block_forked
is_eip155 c num = is_block_forked c.eip155_block num

unfoldable pub is_eip158 : ChainConfig → Option ℕ → Bool
unfolding is_block_forked
is_eip158 c num = is_block_forked c.eip158_block num

unfoldable pub is_byzantium : ChainConfig → Option ℕ → Bool
unfolding is_block_forked
is_byzantium c num = is_block_forked c.byzantium_block num

unfoldable pub is_constantinople : ChainConfig → Option ℕ → Bool
unfolding is_block_forked
is_constantinople c num = is_block_forked c.constantinople_block num

unfoldable pub is_muir_glacier : ChainConfig → Option ℕ → Bool
unfolding is_block_forked
is_muir_glacier c num = is_block_forked c.muir_glacier_block num

-- Without a block of its own, from Constantinople on.
unfoldable pub is_petersburg : ChainConfig → Option ℕ → Bool
unfolding is_block_forked
is_petersburg c num =
    is_block_forked c.petersburg_block num
    || is_unset c.petersburg_block && is_block_forked c.constantinople_block num

unfoldable pub is_istanbul : ChainConfig → Option ℕ → Bool
unfolding is_block_forked
is_istanbul c num = is_block_forked c.istanbul_block num

unfoldable pub is_berlin : ChainConfig → Option ℕ → Bool
unfolding is_block_forked
is_berlin c num = is_block_forked c.berlin_block num

unfoldable pub is_london : ChainConfig → Option ℕ → Bool
unfolding is_block_forked
is_london c num = is_block_forked c.london_block num

unfoldable pub is_napoli : ChainConfig → Option ℕ → Bool
unfolding is_block_forked
is_napoli c num = is_block_forked c.napoli_block num

unfoldable pub is_pip30 : ChainConfig → Option ℕ → Bool
unfolding is_block_forked
is_pip30 c num = is_block_forked c.pip30_block num

unfoldable pub is_terminal_pow_block : ChainConfig → ℕ → ℕ → Bool
is_terminal_pow_block c parent_total_diff total_diff = elim c.terminal_total_difficulty [
  | none ↦ false
  | some ttd ↦ ltb parent_total_diff ttd && leb ttd total_diff
]

unfoldable pub is_shanghai : ChainConfig → Option ℕ → Option ℕ → Bool
unfolding is_timestamp_forked is_block_forked
is_shanghai c time block =
    if is_unset c.shanghai_time
    then is_block_forked c.shanghai_block block
    else is_timestamp_forked c.shanghai_time time

unfoldable pub is_cancun : ChainConfig → Option ℕ → Option ℕ → Bool
unfolding is_timestamp_forked is_block_forked
is_cancun c time block =
    if is_unset c.cancun_time
    then is_block_forked c.cancun_block block
    else is_timestamp_forked c.cancun_time time

unfoldable pub is_prague : ChainConfig → Option ℕ → Option ℕ → Bool
unfolding is_timestamp_forked is_block_forked
is_prague c time block =
    if is_unset c.prague_time
    then is_block_forked c.prague_block block
    else is_timestamp_forked c.prague_time time

unfoldable pub is_osaka : ChainConfig → Option ℕ → Option ℕ → Bool
unfolding is_timestamp_forked is_block_forked
is_osaka c time block =
    if is_unset c.osaka_time
    then is_block_forked c.osaka_block block
    else is_timestamp_forked c.osaka_time time

-- ChainConfig.Rules, as the interpreter and the gas functions take it.
unfoldable pub rules : ChainConfig → Option ℕ → Bool → Option ℕ → ChainRules
unfolding is_homestead is_eip150 is_eip158 is_byzantium is_constantinople is_istanbul is_berlin
    is_london is_shanghai is_cancun is_napoli is_pip30 is_prague is_osaka
rules c num is_merge time = record {
  is_homestead = is_homestead c num;
  is_eip150 = is_eip150 c num;
  is_eip158 = is_eip158 c num;
  is_byzantium = is_byzantium c num;
  is_constantinople = is_constantinople c num;
  is_istanbul = is_istanbul c num;
  is_berlin = is_berlin c num;
  is_london = is_london c num;
  is_merge = is_merge;
  is_shanghai = is_shanghai c time num;
  is_cancun = is_cancun c time num;
  is_napoli = is_napoli c num;
  is_pip30 = is_pip30 c num;
  is_prague = is_prague c time num;
  is_osaka = is_osaka c time num;
}

unfoldable pub frame_rules : ChainConfig → Option ℕ → Rules
unfolding is_eip150 is_eip158 is_petersburg is_constantinople
frame_rules c num = record {
  is_eip150 = is_eip150 c num;
  is_eip158 = is_eip158 c num;
  is_petersburg = is_petersburg c num;
  is_constantinople = is_constantinople c num;
}
