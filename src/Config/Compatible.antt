-- ===== src/Config/Compatible.antt =====
-- checkCompatible (params/config.go): whether a new configuration may replace a stored one.
pub mod Rewind
use cardinal_evm.Prelude.{
  ℕ, ◌-◌, ◌≤◌, ◌≡◌, arith, ltb, Bool, true, false, not, ◌&&◌, if◌then◌else◌, Option, none, some,
  List, [], ◌∷◌,
}
use cardinal_evm.Config.{
  ChainConfig, is_block_forked, is_timestamp_forked, config_block_equal, config_timestamp_equal,
  is_fork_block_incompatible, is_fork_timestamp_incompatible, is_dao_fork, is_eip158,
}

pub data What : Type 0 where
  homestead_fork dao_fork dao_fork_support eip150_fork eip155_fork eip158_fork eip158_chain_id :
      What
  byzantium_fork constantinople_fork petersburg_fork istanbul_fork muir_glacier_fork : What
  berlin_fork london_fork shanghai_fork cancun_fork prague_fork osaka_fork : What

pub record ConfigCompatError : Type 0 where
  pub what : What
  pub stored_block : Option ℕ
  pub new_block : Option ℕ
  pub stored_time : Option ℕ
  pub new_time : Option ℕ
  pub rewind_to_block : ℕ
  pub rewind_to_time : ℕ

-- The switch over the stored and the new number, and what comes before the number chosen.
unfoldable pub rewind : Option ℕ → Option ℕ → Option ℕ
rewind none new = new
rewind (some stored) none = some stored
rewind (some stored) (some new) = if ltb stored new then some stored else some new

abbrev before : Option ℕ → ℕ
before none = 0
before (some n) = n - 1

unfoldable pub new_block_compat_error : What → Option ℕ → Option ℕ → ConfigCompatError
unfolding rewind
new_block_compat_error what stored new = record {
  what = what;
  stored_block = stored;
  new_block = new;
  stored_time = none;
  new_time = none;
  rewind_to_block = before (rewind stored new);
  rewind_to_time = 0;
}

unfoldable pub new_timestamp_compat_error : What → Option ℕ → Option ℕ → ConfigCompatError
unfolding rewind
new_timestamp_compat_error what stored new = record {
  what = what;
  stored_block = none;
  new_block = none;
  stored_time = stored;
  new_time = new;
  rewind_to_block = 0;
  rewind_to_time = before (rewind stored new);
}

-- An early return, or the statements that follow.
abbrev or_else : Option ConfigCompatError → Option ConfigCompatError → Option ConfigCompatError
or_else (some e) rest = some e
or_else none rest = rest

abbrev first_error : List (Option ConfigCompatError) → Option ConfigCompatError
first_error [] = none
first_error (e ∷ es) = or_else e (first_error es)

abbrev guard : Bool → ConfigCompatError → Option ConfigCompatError
guard t e = if t then some e else none

unfoldable pub check_block : What → Option ℕ → Option ℕ → Option ℕ → Option ConfigCompatError
unfolding is_fork_block_incompatible new_block_compat_error
check_block what s1 s2 head =
    guard (is_fork_block_incompatible s1 s2 head) (new_block_compat_error what s1 s2)

unfoldable pub check_time : What → Option ℕ → Option ℕ → Option ℕ → Option ConfigCompatError
unfolding is_fork_timestamp_incompatible new_timestamp_compat_error
check_time what s1 s2 head =
    guard (is_fork_timestamp_incompatible s1 s2 head) (new_timestamp_compat_error what s1 s2)

abbrev same_flag : Bool → Bool → Bool
same_flag true b = b
same_flag false b = not b

unfoldable pub check_dao_support : ChainConfig → ChainConfig → Option ℕ → Option ConfigCompatError
unfolding is_dao_fork new_block_compat_error
check_dao_support c new head =
    guard (is_dao_fork c head && not (same_flag c.dao_fork_support new.dao_fork_support))
      (new_block_compat_error dao_fork_support c.dao_fork_block new.dao_fork_block)

unfoldable pub check_chain_id : ChainConfig → ChainConfig → Option ℕ → Option ConfigCompatError
unfolding is_eip158 config_block_equal new_block_compat_error
check_chain_id c new head =
    guard (is_eip158 c head && not (config_block_equal c.chain_id new.chain_id))
      (new_block_compat_error eip158_chain_id c.eip158_block new.eip158_block)

-- A Petersburg block in the past may be set to the one of Constantinople.
unfoldable pub check_petersburg : ChainConfig → ChainConfig → Option ℕ → Option ConfigCompatError
unfolding is_fork_block_incompatible new_block_compat_error
check_petersburg c new head =
    guard
      (is_fork_block_incompatible c.petersburg_block new.petersburg_block head
        && is_fork_block_incompatible c.constantinople_block new.petersburg_block head)
      (new_block_compat_error petersburg_fork c.petersburg_block new.petersburg_block)

unfoldable pub check_compatible :
    ChainConfig → ChainConfig → Option ℕ → Option ℕ → Option ConfigCompatError
unfolding check_block check_time check_dao_support check_chain_id check_petersburg
check_compatible c new head time = first_error (
    check_block homestead_fork c.homestead_block new.homestead_block head
    ∷ check_block dao_fork c.dao_fork_block new.dao_fork_block head
    ∷ check_dao_support c new head
    ∷ check_block eip150_fork c.eip150_block new.eip150_block head
    ∷ check_block eip155_fork c.eip155_block new.eip155_block head
    ∷ check_block eip158_fork c.eip158_block new.eip158_block head
    ∷ check_chain_id c new head
    ∷ check_block byzantium_fork c.byzantium_block new.byzantium_block head
    ∷ check_block constantinople_fork c.constantinople_block new.constantinople_block head
    ∷ check_petersburg c new head
    ∷ check_block istanbul_fork c.istanbul_block new.istanbul_block head
    ∷ check_block muir_glacier_fork c.muir_glacier_block new.muir_glacier_block head
    ∷ check_block berlin_fork c.berlin_block new.berlin_block head
    ∷ check_block london_fork c.london_block new.london_block head
    ∷ check_time shanghai_fork c.shanghai_time new.shanghai_time time
    ∷ check_time cancun_fork c.cancun_time new.cancun_time time
    ∷ check_time prague_fork c.prague_time new.prague_time time
    ∷ check_time osaka_fork c.osaka_time new.osaka_time time
    ∷ [])

-- The fork is active under both schedules or under neither.
abbrev pub SameBlocks : Option ℕ → Option ℕ → ℕ → Type 0
SameBlocks s1 s2 n = is_block_forked s1 (some n) ≡ is_block_forked s2 (some n)

abbrev pub SameTimes : Option ℕ → Option ℕ → ℕ → Type 0
SameTimes s1 s2 t = is_timestamp_forked s1 (some t) ≡ is_timestamp_forked s2 (some t)

block_past :
    (what : What) (s1 s2 : Option ℕ) (head n : ℕ)
    → n ≤ head
    → check_block what s1 s2 (some head) ≡ none
    → SameBlocks s1 s2 n
unfolding check_block is_fork_block_incompatible is_block_forked config_block_equal
block_past what s1 s2 head n le e = ground arith

time_past :
    (what : What) (s1 s2 : Option ℕ) (head t : ℕ)
    → t ≤ head
    → check_time what s1 s2 (some head) ≡ none
    → SameTimes s1 s2 t
unfolding check_time is_fork_timestamp_incompatible is_timestamp_forked config_timestamp_equal
time_past what s1 s2 head t le e = ground arith

both_none : (a b : Option ConfigCompatError) → or_else a b ≡ none → (a ≡ none) × (b ≡ none)
both_none a b e = ground arith

-- Where checkCompatible finds no error at a head block and time, the two configurations agree on the
-- past of the schedules that it compares, Petersburg aside: the blocks of Homestead, DAO, EIP-150,
-- EIP-155, EIP-158, Byzantium, Constantinople, Istanbul, Muir Glacier, Berlin and London, and the times
-- of Shanghai, Cancun, Prague and Osaka. Each has passed under both configurations or under neither, at
-- any block or time up to the head. Schedules that it does not compare are not spoken of.
pub check_compatible-past :
    (c new : ChainConfig) (head time n t : ℕ)
    → check_compatible c new (some head) (some time) ≡ none
    → n ≤ head
    → t ≤ time
    → SameBlocks c.homestead_block new.homestead_block n
      × SameBlocks c.dao_fork_block new.dao_fork_block n
      × SameBlocks c.eip150_block new.eip150_block n
      × SameBlocks c.eip155_block new.eip155_block n
      × SameBlocks c.eip158_block new.eip158_block n
      × SameBlocks c.byzantium_block new.byzantium_block n
      × SameBlocks c.constantinople_block new.constantinople_block n
      × SameBlocks c.istanbul_block new.istanbul_block n
      × SameBlocks c.muir_glacier_block new.muir_glacier_block n
      × SameBlocks c.berlin_block new.berlin_block n
      × SameBlocks c.london_block new.london_block n
      × SameTimes c.shanghai_time new.shanghai_time t
      × SameTimes c.cancun_time new.cancun_time t
      × SameTimes c.prague_time new.prague_time t
      × SameTimes c.osaka_time new.osaka_time t
unfolding check_compatible
check_compatible-past c new head time n t e le lt =
    let (e0, r0) = both_none _ _ e in
    let (e1, r1) = both_none _ _ r0 in
    let (e2, r2) = both_none _ _ r1 in
    let (e3, r3) = both_none _ _ r2 in
    let (e4, r4) = both_none _ _ r3 in
    let (e5, r5) = both_none _ _ r4 in
    let (e6, r6) = both_none _ _ r5 in
    let (e7, r7) = both_none _ _ r6 in
    let (e8, r8) = both_none _ _ r7 in
    let (e9, r9) = both_none _ _ r8 in
    let (e10, r10) = both_none _ _ r9 in
    let (e11, r11) = both_none _ _ r10 in
    let (e12, r12) = both_none _ _ r11 in
    let (e13, r13) = both_none _ _ r12 in
    let (e14, r14) = both_none _ _ r13 in
    let (e15, r15) = both_none _ _ r14 in
    let (e16, r16) = both_none _ _ r15 in
    let (e17, r17) = both_none _ _ r16 in
    (
      block_past _ _ _ head n le e0,
      block_past _ _ _ head n le e1,
      block_past _ _ _ head n le e3,
      block_past _ _ _ head n le e4,
      block_past _ _ _ head n le e5,
      block_past _ _ _ head n le e7,
      block_past _ _ _ head n le e8,
      block_past _ _ _ head n le e10,
      block_past _ _ _ head n le e11,
      block_past _ _ _ head n le e12,
      block_past _ _ _ head n le e13,
      time_past _ _ _ time t lt e14,
      time_past _ _ _ time t lt e15,
      time_past _ _ _ time t lt e16,
      time_past _ _ _ time t lt e17,
    )
