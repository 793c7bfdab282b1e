-- ===== src/Config/Order.antt =====
-- CheckConfigForkOrder (params/config.go).
use cardinal_evm.Prelude.{
  ℕ, ◌≤◌, ◌≡◌, arith, ltb, Bool, true, false, not, ◌&&◌, ◌||◌, if◌then◌else◌, Option, none, some,
  List, [], ◌∷◌,
}
use cardinal_evm.Config.{
  ChainConfig, is_unset, is_block_forked, is_homestead, is_eip150, is_eip155, is_eip158,
  is_byzantium, is_constantinople, is_istanbul, is_berlin, is_london,
}

-- A fork without its name: the error does not carry it.
pub record Fork : Type 0 where
  pub block : Option ℕ
  pub timestamp : Option ℕ
  pub optional : Bool

abbrev pub at_block : Option ℕ → Bool → Fork
at_block n optional = record { block = n; timestamp = none; optional = optional }

abbrev pub at_time : Option ℕ → Bool → Fork
at_time t optional = record { block = none; timestamp = t; optional = optional }

abbrev is_undefined : Fork → Bool
is_undefined f = is_unset f.block && is_unset f.timestamp

abbrev above : Option ℕ → Option ℕ → Bool
above (some x) (some y) = ltb y x
above x y = false

abbrev both_set : Option ℕ → Option ℕ → Bool
both_set x y = not (is_unset x) && not (is_unset y)

-- Whether the fork `cur` may follow the fork `last`.
unfoldable pub follows : Fork → Fork → Bool
follows last cur =
    if is_undefined last && not (is_undefined cur)
    then false
    else if both_set last.block cur.block || both_set last.timestamp cur.timestamp
    then not (above last.block cur.block)
      && not (above last.timestamp cur.timestamp)
      && not (both_set last.timestamp cur.block)
    else true

-- The loop after the first fork; the answer is whether there is no error.
unfoldable pub follow : Fork → List Fork → Bool
unfolding follows
follow last [] = true
follow last (cur ∷ rest) =
    follows last cur && follow (if cur.optional && is_undefined cur then last else cur) rest

unfoldable pub check_config_fork_order : ChainConfig → Bool
unfolding follow
check_config_fork_order c = follow (at_block c.homestead_block false) (
    at_block c.dao_fork_block true
    ∷ at_block c.eip150_block false
    ∷ at_block c.eip155_block false
    ∷ at_block c.eip158_block false
    ∷ at_block c.byzantium_block false
    ∷ at_block c.constantinople_block false
    ∷ at_block c.petersburg_block false
    ∷ at_block c.istanbul_block false
    ∷ at_block c.muir_glacier_block true
    ∷ at_block c.berlin_block false
    ∷ at_block c.london_block false
    ∷ at_time c.shanghai_time false
    ∷ at_time c.cancun_time true
    ∷ at_time c.prague_time true
    ∷ at_time c.osaka_time true
    ∷ [])

-- `b` is set no earlier than `a`, and not at all where `a` is not.
Precedes : Option ℕ → Option ℕ → Type 0
Precedes a none = Unit {0}
Precedes none (some y) = true ≡ false
Precedes (some x) (some y) = x ≤ y

next-Precedes :
    (a b : Option ℕ) (rest : List Fork)
    → follow (at_block a false) (at_block b false ∷ rest) ≡ true
    → Precedes a b × (follow (at_block b false) rest ≡ true)
unfolding follow follows Precedes
next-Precedes a b rest h = ground (arith)

-- An optional fork between the two may be left out.
over_optional :
    (a o b : Option ℕ) (rest : List Fork)
    → follow (at_block a false) (at_block o true ∷ at_block b false ∷ rest) ≡ true
    → Precedes a b × (follow (at_block b false) rest ≡ true)
unfolding follow follows Precedes
over_optional a o b rest h = ground (arith)

abbrev pub Implies : Bool → Bool → Type 0
Implies later earlier = not later || earlier ≡ true

Precedes-Implies :
    (a b num : Option ℕ) → Precedes a b → Implies (is_block_forked b num) (is_block_forked a num)
unfolding Precedes is_block_forked
Precedes-Implies a b num h = ground (arith)

-- The forks after one of them.
abbrev after_london : ChainConfig → List Fork
after_london c =
    at_time c.shanghai_time false
    ∷ at_time c.cancun_time true
    ∷ at_time c.prague_time true
    ∷ at_time c.osaka_time true
    ∷ []

abbrev after_berlin : ChainConfig → List Fork
after_berlin c = at_block c.london_block false ∷ after_london c

abbrev after_istanbul : ChainConfig → List Fork
after_istanbul c =
    at_block c.muir_glacier_block true ∷ at_block c.berlin_block false ∷ after_berlin c

abbrev after_petersburg : ChainConfig → List Fork
after_petersburg c = at_block c.istanbul_block false ∷ after_istanbul c

abbrev after_constantinople : ChainConfig → List Fork
after_constantinople c = at_block c.petersburg_block false ∷ after_petersburg c

abbrev after_byzantium : ChainConfig → List Fork
after_byzantium c = at_block c.constantinople_block false ∷ after_constantinople c

abbrev after_eip158 : ChainConfig → List Fork
after_eip158 c = at_block c.byzantium_block false ∷ after_byzantium c

abbrev after_eip155 : ChainConfig → List Fork
after_eip155 c = at_block c.eip158_block false ∷ after_eip158 c

abbrev after_eip150 : ChainConfig → List Fork
after_eip150 c = at_block c.eip155_block false ∷ after_eip155 c

-- A configuration whose forks are in order by CheckConfigForkOrder has, at every block, each fork
-- from EIP-150 to London active only together with the fork before it, DAO and Muir Glacier left
-- aside: EIP-150 with Homestead, and London with Berlin.
pub check_config_fork_order-Implies :
    (c : ChainConfig) (num : Option ℕ)
    → check_config_fork_order c ≡ true
    → Implies (is_eip150 c num) (is_homestead c num)
      × Implies (is_eip155 c num) (is_eip150 c num)
      × Implies (is_eip158 c num) (is_eip155 c num)
      × Implies (is_byzantium c num) (is_eip158 c num)
      × Implies (is_constantinople c num) (is_byzantium c num)
      × Implies (is_block_forked c.petersburg_block num) (is_constantinople c num)
      × Implies (is_istanbul c num) (is_block_forked c.petersburg_block num)
      × Implies (is_berlin c num) (is_istanbul c num)
      × Implies (is_london c num) (is_berlin c num)
unfolding check_config_fork_order is_homestead is_eip150 is_eip155 is_eip158 is_byzantium
    is_constantinople is_istanbul is_berlin is_london
check_config_fork_order-Implies c num h =
    let (p0, r0) =
      over_optional c.homestead_block c.dao_fork_block c.eip150_block (after_eip150 c) h in
    let (p1, r1) = next-Precedes c.eip150_block c.eip155_block (after_eip155 c) r0 in
    let (p2, r2) = next-Precedes c.eip155_block c.eip158_block (after_eip158 c) r1 in
    let (p3, r3) = next-Precedes c.eip158_block c.byzantium_block (after_byzantium c) r2 in
    let (p4, r4) =
      next-Precedes c.byzantium_block c.constantinople_block (after_constantinople c) r3 in
    let (p5, r5) =
      next-Precedes c.constantinople_block c.petersburg_block (after_petersburg c) r4 in
    let (p6, r6) = next-Precedes c.petersburg_block c.istanbul_block (after_istanbul c) r5 in
    let (p7, r7) =
      over_optional c.istanbul_block c.muir_glacier_block c.berlin_block (after_berlin c) r6 in
    let (p8, r8) = next-Precedes c.berlin_block c.london_block (after_london c) r7 in
    (
      Precedes-Implies c.homestead_block c.eip150_block num p0,
      Precedes-Implies c.eip150_block c.eip155_block num p1,
      Precedes-Implies c.eip155_block c.eip158_block num p2,
      Precedes-Implies c.eip158_block c.byzantium_block num p3,
      Precedes-Implies c.byzantium_block c.constantinople_block num p4,
      Precedes-Implies c.constantinople_block c.petersburg_block num p5,
      Precedes-Implies c.petersburg_block c.istanbul_block num p6,
      Precedes-Implies c.istanbul_block c.berlin_block num p7,
      Precedes-Implies c.berlin_block c.london_block num p8,
    )
