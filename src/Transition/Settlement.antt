-- ===== src/Transition/Settlement.antt =====
-- calcRefund and gasUsed of api/state_transition.go, and what TransitionDb does with the gas that a
-- message leaves: the refund, and the floor of EIP-7623.
use cardinal_evm.Prelude.{ℕ, ◌+◌, ◌-◌, ◌/◌, ◌≤◌, ◌≡◌, ltb, if◌then◌else◌, arith}
use cardinal_evm.Prelude.{Bool, true, false, add64, sub64, IsU64}

abbrev pub refund_quotient : ℕ
refund_quotient = 2

abbrev pub refund_quotient_eip3529 : ℕ
refund_quotient_eip3529 = 5

abbrev pub quotient : Bool → ℕ
quotient is_london = if is_london then refund_quotient_eip3529 else refund_quotient

unfoldable pub gas_used : ℕ → ℕ → ℕ
gas_used initial_gas gas = sub64 initial_gas gas

-- `counter` is state.GetRefund().
unfoldable pub calc_refund : Bool → ℕ → ℕ → ℕ → ℕ
unfolding gas_used
calc_refund is_london initial_gas gas counter =
    let refund = gas_used initial_gas gas / quotient is_london in
    if ltb counter refund then counter else refund

-- The gas left at the end of TransitionDb.
unfoldable pub settle : Bool → ℕ → ℕ → ℕ → ℕ → ℕ
unfolding gas_used calc_refund
settle is_london initial_gas gas counter floor_data_gas =
    let left = add64 gas (calc_refund is_london initial_gas gas counter) in
    if ltb (gas_used initial_gas left) floor_data_gas
    then sub64 initial_gas floor_data_gas
    else left

-- The smaller and the larger of two numbers.
abbrev least : ℕ → ℕ → ℕ
least m n = if ltb m n then m else n

abbrev greatest : ℕ → ℕ → ℕ
greatest m n = if ltb m n then n else m

-- What a message that used `used` is charged for: by EIP-3529, at most a fifth is refunded.
unfoldable pub charged : Bool → ℕ → ℕ → ℕ → ℕ
charged is_london used counter floor_data_gas =
    greatest (used - least counter (used / (if is_london then 5 else 2))) floor_data_gas

-- For a message whose uint64 gas limit is at least the gas left and the floor: it is charged for what it
-- used less the refund, which is the counter but at most a fifth of the gas used, before London a half,
-- and at least for the floor; the rest of its limit is left.
pub settle_lem :
    (is_london : Bool) (initial_gas gas counter floor_data_gas : ℕ)
    → IsU64 initial_gas
    → gas ≤ initial_gas
    → floor_data_gas ≤ initial_gas
    → (settle is_london initial_gas gas counter floor_data_gas
          + charged is_london (initial_gas - gas) counter floor_data_gas
        ≡ initial_gas)
      × (charged is_london (initial_gas - gas) counter floor_data_gas ≤ initial_gas)
unfolding settle charged calc_refund gas_used
settle_lem true initial_gas gas counter floor_data_gas h p q = (ground arith, ground arith)
settle_lem false initial_gas gas counter floor_data_gas h p q = (ground arith, ground arith)
