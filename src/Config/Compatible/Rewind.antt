-- ===== src/Config/Compatible/Rewind.antt =====
-- CheckCompatible (params/config.go): the search for the earliest conflict of two configurations.
use cardinal_evm.Prelude.{
  ℕ, zero, suc, ◌+◌, ◌-◌, ◌≤◌, ◌<◌, ◌≡◌, ◌≢◌, refl, subst, sym, arith, ltb, ◌==◌, Bool, true, false,
  ◌&&◌, if◌then◌else◌, Option, none, some, Bool-cases, inl, inr,
}
use cardinal_evm.Config.{
  ChainConfig, is_block_forked, is_timestamp_forked, is_fork_block_incompatible,
  is_fork_timestamp_incompatible, is_dao_fork, is_eip158,
}
use cardinal_evm.Config.Compatible.{
  What, homestead_fork, dao_fork, eip150_fork, eip155_fork, eip158_fork, byzantium_fork,
  constantinople_fork, istanbul_fork, muir_glacier_fork, berlin_fork, london_fork, shanghai_fork,
  cancun_fork, prague_fork, osaka_fork, ConfigCompatError, check_block, check_time,
  check_dao_support, check_chain_id, check_petersburg, check_compatible, new_block_compat_error,
  new_timestamp_compat_error, rewind, or_else,
}

abbrev same_rewind : ConfigCompatError → Option ConfigCompatError → Bool
same_rewind e none = false
same_rewind e (some last) =
    (e.rewind_to_block == last.rewind_to_block) && (e.rewind_to_time == last.rewind_to_time)

abbrev next_head : ConfigCompatError → ℕ → ℕ
next_head e head = if ltb 0 e.rewind_to_time then head else e.rewind_to_block

abbrev next_time : ConfigCompatError → Option ℕ → Option ℕ
next_time e time = if ltb 0 e.rewind_to_time then some e.rewind_to_time else time

abbrev stop_or :
    Bool
    → Option ConfigCompatError
    → Option (Option ConfigCompatError)
    → Option (Option ConfigCompatError)
stop_or true last rest = some last
stop_or false last rest = rest

abbrev after_check :
    Option ConfigCompatError
    → Option ConfigCompatError
    → (ConfigCompatError → Option (Option ConfigCompatError))
    → Option (Option ConfigCompatError)
after_check none last rest = some last
after_check (some e) last rest = stop_or (same_rewind e last) last (rest e)

-- The loop, with the last error; `none` is fuel that ran out. A time to rewind to comes with a time.
unfoldable pub check_loop :
    ℕ
    → ChainConfig
    → ChainConfig
    → ℕ
    → Option ℕ
    → Option ConfigCompatError
    → Option (Option ConfigCompatError)
unfolding check_compatible
check_loop zero c new head time last = none
check_loop (suc fuel) c new head time last =
    after_check (check_compatible c new (some head) time) last
      (λ e. check_loop fuel c new (next_head e head) (next_time e time) (some e))

abbrev time_or_zero : Option ℕ → ℕ
time_or_zero none = 0
time_or_zero (some t) = t

-- Every round but two lowers the block or the time.
unfoldable pub check_compatible_at :
    ChainConfig → ChainConfig → ℕ → Option ℕ → Option (Option ConfigCompatError)
unfolding check_loop
check_compatible_at c new head time = check_loop (head + time_or_zero time + 2) c new head time none

-- What an error asks to rewind to is below the head.
IsBelow : ℕ → Option ℕ → Option ConfigCompatError → Type 0
IsBelow head time none = Unit {0}
IsBelow head time (some e) =
    (e.rewind_to_block ≤ head - 1) × (e.rewind_to_time ≤ time_or_zero time - 1)

check_block-IsBelow :
    (what : What) (s1 s2 : Option ℕ) (head : ℕ) (time : Option ℕ)
    → IsBelow head time (check_block what s1 s2 (some head))
unfolding check_block is_fork_block_incompatible is_block_forked new_block_compat_error rewind
    IsBelow
check_block-IsBelow what s1 s2 head time = ground arith

check_time-IsBelow :
    (what : What) (s1 s2 : Option ℕ) (head : ℕ) (time : Option ℕ)
    → IsBelow head time (check_time what s1 s2 time)
unfolding check_time is_fork_timestamp_incompatible is_timestamp_forked new_timestamp_compat_error
    rewind IsBelow
check_time-IsBelow what s1 s2 head time = ground arith

check_dao_support-IsBelow :
    (c new : ChainConfig) (head : ℕ) (time : Option ℕ)
    → IsBelow head time (check_dao_support c new (some head))
unfolding check_dao_support is_dao_fork is_block_forked new_block_compat_error rewind IsBelow
check_dao_support-IsBelow c new head time = ground arith

check_chain_id-IsBelow :
    (c new : ChainConfig) (head : ℕ) (time : Option ℕ)
    → IsBelow head time (check_chain_id c new (some head))
unfolding check_chain_id is_eip158 is_block_forked new_block_compat_error rewind IsBelow
check_chain_id-IsBelow c new head time = ground arith

check_petersburg-IsBelow :
    (c new : ChainConfig) (head : ℕ) (time : Option ℕ)
    → IsBelow head time (check_petersburg c new (some head))
unfolding check_petersburg is_fork_block_incompatible is_block_forked new_block_compat_error rewind
    IsBelow
check_petersburg-IsBelow c new head time = ground arith

none-IsBelow : (head : ℕ) (time : Option ℕ) → IsBelow head time none
unfolding IsBelow
none-IsBelow head time = tt

or_else-IsBelow :
    (head : ℕ) (time : Option ℕ) (o q : Option ConfigCompatError)
    → IsBelow head time o
    → IsBelow head time q
    → IsBelow head time (or_else o q)
unfolding IsBelow
or_else-IsBelow head time none q h k = k
or_else-IsBelow head time (some e) q h k = h

check_compatible-IsBelow :
    (c new : ChainConfig) (head : ℕ) (time : Option ℕ)
    → IsBelow head time (check_compatible c new (some head) time)
unfolding check_compatible
check_compatible-IsBelow c new head time =
    let b : (what : What) (s1 s2 : Option ℕ)
        → IsBelow head time (check_block what s1 s2 (some head)) =
      λ what s1 s2. check_block-IsBelow what s1 s2 head time in
    let t : (what : What) (s1 s2 : Option ℕ) → IsBelow head time (check_time what s1 s2 time) =
      λ what s1 s2. check_time-IsBelow what s1 s2 head time in
    let last =
      or_else-IsBelow head time _ _ (t osaka_fork c.osaka_time new.osaka_time)
        (none-IsBelow head time) in
    let e16 = or_else-IsBelow head time _ _ (t prague_fork c.prague_time new.prague_time) last in
    let e15 = or_else-IsBelow head time _ _ (t cancun_fork c.cancun_time new.cancun_time) e16 in
    let e14 =
      or_else-IsBelow head time _ _ (t shanghai_fork c.shanghai_time new.shanghai_time) e15 in
    let e13 = or_else-IsBelow head time _ _ (b london_fork c.london_block new.london_block) e14 in
    let e12 = or_else-IsBelow head time _ _ (b berlin_fork c.berlin_block new.berlin_block) e13 in
    let e11 =
      or_else-IsBelow head time _ _
        (b muir_glacier_fork c.muir_glacier_block new.muir_glacier_block) e12 in
    let e10 =
      or_else-IsBelow head time _ _ (b istanbul_fork c.istanbul_block new.istanbul_block) e11 in
    let e9 = or_else-IsBelow head time _ _ (check_petersburg-IsBelow c new head time) e10 in
    let e8 =
      or_else-IsBelow head time _ _
        (b constantinople_fork c.constantinople_block new.constantinople_block) e9 in
    let e7 =
      or_else-IsBelow head time _ _ (b byzantium_fork c.byzantium_block new.byzantium_block) e8 in
    let e6 = or_else-IsBelow head time _ _ (check_chain_id-IsBelow c new head time) e7 in
    let e5 = or_else-IsBelow head time _ _ (b eip158_fork c.eip158_block new.eip158_block) e6 in
    let e4 = or_else-IsBelow head time _ _ (b eip155_fork c.eip155_block new.eip155_block) e5 in
    let e3 = or_else-IsBelow head time _ _ (b eip150_fork c.eip150_block new.eip150_block) e4 in
    let e2 = or_else-IsBelow head time _ _ (check_dao_support-IsBelow c new head time) e3 in
    let e1 = or_else-IsBelow head time _ _ (b dao_fork c.dao_fork_block new.dao_fork_block) e2 in
    let e0 =
      or_else-IsBelow head time _ _ (b homestead_fork c.homestead_block new.homestead_block) e1 in
    e0

stop_ends :
    (t : Bool) (last : Option ConfigCompatError) (rest : Option (Option ConfigCompatError))
    → t ≡ true
    → stop_or t last rest ≢ none
stop_ends true last rest e k = absurd (ground arith)
stop_ends false last rest e k = absurd (ground arith)

rest_ends :
    (t : Bool) (last : Option ConfigCompatError) (rest : Option (Option ConfigCompatError))
    → rest ≢ none
    → stop_or t last rest ≢ none
rest_ends true last rest e k = absurd (ground arith)
rest_ends false last rest e k = e k

same_rewind_refl : (e : ConfigCompatError) → same_rewind e (some e) ≡ true
same_rewind_refl e = ground arith

-- The same error a second time ends the loop.
repeat_ends :
    (fuel : ℕ) (c new : ChainConfig) (head : ℕ) (time : Option ℕ) (e : ConfigCompatError)
    → check_compatible c new (some head) time ≡ some e
    → check_loop (suc fuel) c new head time (some e) ≢ none
unfolding check_loop
repeat_ends fuel c new head time e q =
    subst
      (λ o.
        after_check o (some e)
          (λ e. check_loop fuel c new (next_head e head) (next_time e time) (some e))
        ≢ none)
      (sym q) (stop_ends (same_rewind e (some e)) (some e) _ (same_rewind_refl e))

going_on :
    (fuel : ℕ) (c new : ChainConfig) (head : ℕ) (time : Option ℕ) (e : ConfigCompatError)
    → ((head' : ℕ) (time' : Option ℕ)
        → head' + time_or_zero time' < fuel
        → check_loop (suc fuel) c new head' time' (some e) ≢ none)
    → head + time_or_zero time < suc fuel
    → check_compatible c new (some head) time ≡ some e
    → e.rewind_to_block ≤ head - 1
    → e.rewind_to_time ≤ time_or_zero time - 1
    → check_loop (suc fuel) c new (next_head e head) (next_time e time) (some e) ≢ none
going_on fuel c new head time e rec h q b u = elim (Bool-cases (ltb 0 e.rewind_to_time)) [
  | inl back ↦
      let below : head + e.rewind_to_time < fuel = ground arith in
      rw back (rec head (some e.rewind_to_time) below)
  | inr stay ↦ rw stay (elim (Bool-cases (ltb 0 head)) [
    | inl lower ↦
        let below : e.rewind_to_block + time_or_zero time < fuel = ground arith in
        rec e.rewind_to_block time below
    | inr start ↦
        let here : e.rewind_to_block ≡ head = ground arith in
        subst (λ n. check_loop (suc fuel) c new n time (some e) ≢ none) (sym here)
          (repeat_ends fuel c new head time e q)
  ])
]

round_ends :
    (fuel : ℕ) (c new : ChainConfig) (head : ℕ) (time : Option ℕ)
    (last o : Option ConfigCompatError)
    → ((head' : ℕ) (time' : Option ℕ) (last' : Option ConfigCompatError)
        → head' + time_or_zero time' < fuel
        → check_loop (suc fuel) c new head' time' last' ≢ none)
    → head + time_or_zero time < suc fuel
    → check_compatible c new (some head) time ≡ o
    → IsBelow head time o
    → after_check o last
        (λ e. check_loop (suc fuel) c new (next_head e head) (next_time e time) (some e))
      ≢ none
unfolding IsBelow
round_ends fuel c new head time last none rec h q b = λ k. absurd (ground arith)
round_ends fuel c new head time last (some e) rec h q b =
    rest_ends (same_rewind e last) last _
      (going_on fuel c new head time e (λ head' time'. rec head' time' (some e)) h q b.0 b.1)

-- With rounds for what is left, the loop ends: it also ends where the head cannot fall, since the
-- same error comes twice.
loop_ends :
    (fuel : ℕ) (c new : ChainConfig) (head : ℕ) (time : Option ℕ) (last : Option ConfigCompatError)
    → head + time_or_zero time < fuel
    → check_loop (suc fuel) c new head time last ≢ none
unfolding check_loop
loop_ends zero c new head time last h = absurd (ground arith)
loop_ends (suc fuel) c new head time last h =
    round_ends fuel c new head time last (check_compatible c new (some head) time)
      (loop_ends fuel c new) h refl (check_compatible-IsBelow c new head time)

-- CheckCompatible ends: its loop has at most two rounds more than the height and the time together,
-- for any two configurations.
pub check_compatible_at-ne-none :
    (c new : ChainConfig) (head : ℕ) (time : Option ℕ) → check_compatible_at c new head time ≢ none
unfolding check_compatible_at
check_compatible_at-ne-none c new head time =
    let shift : head + time_or_zero time + 2 ≡ suc (head + time_or_zero time + 1) = omega arith in
    rw shift (loop_ends (head + time_or_zero time + 1) c new head time none (omega arith))
