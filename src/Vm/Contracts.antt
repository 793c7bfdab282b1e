-- ===== src/Vm/Contracts.antt =====
-- vm/contracts.go: the sets of precompiled contracts, and the choice of one (vm/evm.go, precompile).
-- A map from addresses is a list of pairs.
pub mod Prices
pub mod Gas
pub mod Runs
pub mod Active
pub mod Tests
pub mod Dearer
use cardinal_evm.Prelude.{
  ℕ, ◌==◌, ◌&&◌, Bool, true, false, if◌then◌else◌, Option, none, some, List, [], ◌∷◌, map,
}
use cardinal_evm.State.Account.{Address}
use cardinal_evm.Vm.JumpTable.Validate.{ChainRules}

-- A precompiled contract with its fields: of bigModExp eip2565, eip7823 and eip7883, of p256Verify the
-- gas.
pub data Precompiled : Type 0 where
  ecrecover sha256hash ripemd160hash data_copy : Precompiled
  big_mod_exp : Bool → Bool → Bool → Precompiled
  bn256_add_byzantium bn256_scalar_mul_byzantium bn256_pairing_byzantium : Precompiled
  bn256_add_istanbul bn256_scalar_mul_istanbul bn256_pairing_istanbul : Precompiled
  blake2f kzg_point_evaluation : Precompiled
  bls12381_g1_add bls12381_g1_multi_exp bls12381_g2_add bls12381_g2_multi_exp : Precompiled
  bls12381_pairing bls12381_map_g1 bls12381_map_g2 : Precompiled
  p256_verify : ℕ → Precompiled

abbrev pub Contracts : Type 0
Contracts = List (Address × Precompiled)

unfoldable pub lookup : Contracts → Address → Option Precompiled
lookup [] a = none
lookup ((k, p) ∷ entries) a = if k == a then some p else lookup entries a

unfoldable pub homestead_contracts : Contracts
homestead_contracts = (1, ecrecover) ∷ (2, sha256hash) ∷ (3, ripemd160hash) ∷ (4, data_copy) ∷ []

unfoldable pub byzantium_contracts : Contracts
byzantium_contracts =
    (1, ecrecover)
    ∷ (2, sha256hash)
    ∷ (3, ripemd160hash)
    ∷ (4, data_copy)
    ∷ (5, big_mod_exp false false false)
    ∷ (6, bn256_add_byzantium)
    ∷ (7, bn256_scalar_mul_byzantium)
    ∷ (8, bn256_pairing_byzantium)
    ∷ []

unfoldable pub istanbul_contracts : Contracts
istanbul_contracts =
    (1, ecrecover)
    ∷ (2, sha256hash)
    ∷ (3, ripemd160hash)
    ∷ (4, data_copy)
    ∷ (5, big_mod_exp false false false)
    ∷ (6, bn256_add_istanbul)
    ∷ (7, bn256_scalar_mul_istanbul)
    ∷ (8, bn256_pairing_istanbul)
    ∷ (9, blake2f)
    ∷ []

unfoldable pub berlin_contracts : Contracts
berlin_contracts =
    (1, ecrecover)
    ∷ (2, sha256hash)
    ∷ (3, ripemd160hash)
    ∷ (4, data_copy)
    ∷ (5, big_mod_exp true false false)
    ∷ (6, bn256_add_istanbul)
    ∷ (7, bn256_scalar_mul_istanbul)
    ∷ (8, bn256_pairing_istanbul)
    ∷ (9, blake2f)
    ∷ []

unfoldable pub cancun_contracts : Contracts
cancun_contracts =
    (1, ecrecover)
    ∷ (2, sha256hash)
    ∷ (3, ripemd160hash)
    ∷ (4, data_copy)
    ∷ (5, big_mod_exp true false false)
    ∷ (6, bn256_add_istanbul)
    ∷ (7, bn256_scalar_mul_istanbul)
    ∷ (8, bn256_pairing_istanbul)
    ∷ (9, blake2f)
    ∷ (10, kzg_point_evaluation)
    ∷ []

unfoldable pub napoli_contracts : Contracts
napoli_contracts =
    (1, ecrecover)
    ∷ (2, sha256hash)
    ∷ (3, ripemd160hash)
    ∷ (4, data_copy)
    ∷ (5, big_mod_exp true false false)
    ∷ (6, bn256_add_istanbul)
    ∷ (7, bn256_scalar_mul_istanbul)
    ∷ (8, bn256_pairing_istanbul)
    ∷ (9, blake2f)
    ∷ (10, kzg_point_evaluation)
    ∷ (256, p256_verify 3450)
    ∷ []

unfoldable pub prague_contracts : Contracts
prague_contracts =
    (1, ecrecover)
    ∷ (2, sha256hash)
    ∷ (3, ripemd160hash)
    ∷ (4, data_copy)
    ∷ (5, big_mod_exp true false false)
    ∷ (6, bn256_add_istanbul)
    ∷ (7, bn256_scalar_mul_istanbul)
    ∷ (8, bn256_pairing_istanbul)
    ∷ (9, blake2f)
    ∷ (10, kzg_point_evaluation)
    ∷ (11, bls12381_g1_add)
    ∷ (12, bls12381_g1_multi_exp)
    ∷ (13, bls12381_g2_add)
    ∷ (14, bls12381_g2_multi_exp)
    ∷ (15, bls12381_pairing)
    ∷ (16, bls12381_map_g1)
    ∷ (17, bls12381_map_g2)
    ∷ []

unfoldable pub napoli_prague_contracts : Contracts
napoli_prague_contracts =
    (1, ecrecover)
    ∷ (2, sha256hash)
    ∷ (3, ripemd160hash)
    ∷ (4, data_copy)
    ∷ (5, big_mod_exp true false false)
    ∷ (6, bn256_add_istanbul)
    ∷ (7, bn256_scalar_mul_istanbul)
    ∷ (8, bn256_pairing_istanbul)
    ∷ (9, blake2f)
    ∷ (10, kzg_point_evaluation)
    ∷ (11, bls12381_g1_add)
    ∷ (12, bls12381_g1_multi_exp)
    ∷ (13, bls12381_g2_add)
    ∷ (14, bls12381_g2_multi_exp)
    ∷ (15, bls12381_pairing)
    ∷ (16, bls12381_map_g1)
    ∷ (17, bls12381_map_g2)
    ∷ (256, p256_verify 3450)
    ∷ []

unfoldable pub osaka_contracts : Contracts
osaka_contracts =
    (1, ecrecover)
    ∷ (2, sha256hash)
    ∷ (3, ripemd160hash)
    ∷ (4, data_copy)
    ∷ (5, big_mod_exp true true true)
    ∷ (6, bn256_add_istanbul)
    ∷ (7, bn256_scalar_mul_istanbul)
    ∷ (8, bn256_pairing_istanbul)
    ∷ (9, blake2f)
    ∷ (10, kzg_point_evaluation)
    ∷ (11, bls12381_g1_add)
    ∷ (12, bls12381_g1_multi_exp)
    ∷ (13, bls12381_g2_add)
    ∷ (14, bls12381_g2_multi_exp)
    ∷ (15, bls12381_pairing)
    ∷ (16, bls12381_map_g1)
    ∷ (17, bls12381_map_g2)
    ∷ (256, p256_verify 6900)
    ∷ []

-- The sets of the switch in precompile, which ActivePrecompiles repeats.
unfoldable pub contracts_of : ChainRules → Contracts
contracts_of r =
    if r.is_osaka
    then osaka_contracts
    else if r.is_prague && r.is_napoli
    then napoli_prague_contracts
    else if r.is_prague
    then prague_contracts
    else if r.is_napoli
    then napoli_contracts
    else if r.is_cancun
    then cancun_contracts
    else if r.is_berlin
    then berlin_contracts
    else if r.is_istanbul
    then istanbul_contracts
    else if r.is_byzantium
    then byzantium_contracts
    else homestead_contracts

unfoldable pub precompile : ChainRules → Address → Option Precompiled
unfolding lookup contracts_of
precompile r a = lookup (contracts_of r) a

-- The address of each entry, as init collects them.
unfoldable pub addresses : Contracts → List Address
addresses entries = map (λ entry. entry.0) entries

unfoldable pub active_precompiles : ChainRules → List Address
unfolding addresses
active_precompiles r =
    if r.is_osaka
    then addresses osaka_contracts
    else if r.is_prague && r.is_napoli
    then addresses napoli_prague_contracts
    else if r.is_prague
    then addresses prague_contracts
    else if r.is_napoli
    then addresses napoli_contracts
    else if r.is_cancun
    then addresses cancun_contracts
    else if r.is_berlin
    then addresses berlin_contracts
    else if r.is_istanbul
    then addresses istanbul_contracts
    else if r.is_byzantium
    then addresses byzantium_contracts
    else addresses homestead_contracts
