-- ===== src/Tests/Tokens.antt =====
-- The two tokens at concrete histories. Address 1 is the pool.
use k.Base.{ℕ, ◌-◌, ◌*◌, ◌≤◌, ◌≡◌, refl, arith, true, false, ◌==◌, some, ok, List, [], ◌∷◌}
use k.Base.Int.{pos, ◌+ℤ◌, ◌-ℤ◌}
use k.Shared.Constants.{ray}
use k.Shared.Wide.{
  checked_add, checked_sub, u256_mul, u256_add, u256_sub, u256_div, narrow, to_u128,
}
use k.Shared.RayMath.{ray_mul, ray_mul_down, ray_div_down, ray_div_up}
use k.Shared.Signed.{checked_add_i128, checked_sub_i128, safe_u128_to_i128, safe_i128_to_u128}
use k.Shared.Balances.{IsCovered, sum}
use k.Shared.Debts.{sum_of_debts, debt_of}
use k.AToken.State
use k.AToken.Supply
use k.AToken.Transfer
use k.AToken.Effects.{debited, credited}
use k.AToken.Payout.{burn_scaled_and_transfer_to_effect}
use k.AToken.History
use k.DebtToken.State as DebtState
use k.DebtToken.Supply as DebtSupply
use k.DebtToken.Balance as DebtBalance
use k.DebtToken.Effects as DebtEffects
use k.DebtToken.History as DebtHistory
use k.DebtToken.Repay.{repay_all}

-- Everyone has signed and everything outside succeeds, at an index of 1.5 rays.
abbrev index : ℕ
index = 1_500_000_000_000_000_000_000_000_000

abbrev env : State.Env
env = record {
  auth = λ a. true;
  sequence = 5;
  current_liquidity_index = some index;
  is_whitelisted_for_reserve = λ a. some true;
  is_blacklisted_for_reserve = λ a. some false;
  validate_and_finalize_transfer = λ from to x y z. true;
  underlying_balance = some (pos 1_000_000);
  pays = λ to x. true;
}

abbrev history : List (State.Env × History.Call)
history =
    (env, History.Call.initialize_call 0 9 1 7)
    ∷ (env, History.Call.mint_scaled_call 1 2 1000 index)
    ∷ (env, History.Call.transfer_call 2 3 (pos 100))
    ∷ (env, History.Call.burn_scaled_call 1 2 300 index)
    ∷ []

-- 666 units minted, 67 sent on, 200 burned.
abbrev pool_state : State.ATokenState
pool_state = record {
  underlying_asset = 9;
  pool_address = 1;
  total_supply_scaled = pos 466;
  token_decimals = 7;
}

history_ends : (History.run History.blank history).state ≡ some pool_state
unfolding History.run History.outcome State.initialize Supply.mint_scaled Transfer.transfer
    Transfer.transfer_internal Transfer.transfer_distinct Transfer.move_scaled Transfer.fresh_index
    Supply.burn_scaled Supply.scaled_to_burn Supply.debit_scaled State.get_state
    State.handle_incentives_action State.validate_recipient_whitelist State.validate_not_blacklisted
    ◌+ℤ◌ ◌-ℤ◌ checked_add_i128 checked_sub_i128 safe_u128_to_i128 safe_i128_to_u128 ray_mul
    ray_div_up ray_div_down u256_mul u256_add u256_sub u256_div narrow to_u128
history_ends = refl

run_conserves_example :
    IsCovered (History.run History.blank history).balances
    × (pool_state.total_supply_scaled ≡ sum (History.run History.blank history).balances)
run_conserves_example = History.run_conserves history pool_state history_ends

-- Account 2 holds 666 units.
abbrev funded : State.Token
funded = record History.blank {
  state = some (record pool_state { total_supply_scaled = pos 666 });
  balances = (2, pos 666) ∷ [];
}

abbrev funded_state : State.ATokenState
funded_state = record pool_state { total_supply_scaled = pos 666 }

payout_run :
    Supply.burn_scaled_and_transfer_to env 1 2 300 index 4 funded
    ≡ ok ((pos 466, pos 466, 300), debited funded funded_state 2 (pos 200))
unfolding Supply.burn_scaled_and_transfer_to Supply.pay Supply.scaled_to_burn Supply.debit_scaled
    State.get_state State.handle_incentives_action ◌-ℤ◌ checked_sub_i128 safe_u128_to_i128
    safe_i128_to_u128 ray_mul_down ray_div_up u256_mul u256_add u256_sub u256_div narrow to_u128
payout_run = refl

burn_scaled_and_transfer_to_effect_example :
    (s : State.ATokenState) × (n : ℕ) × (Supply.scaled_to_burn env 1 2 300 index funded
      ≡ ok (s, pos n))
    × (debited funded funded_state 2 (pos 200) ≡ debited funded s 2 (pos n))
    × (300 ≤ 300)
    × (300 * ray ≤ n * index)
    × (env.pays 4 (pos 300) ≡ true)
burn_scaled_and_transfer_to_effect_example =
    burn_scaled_and_transfer_to_effect env 1 2 4 300 index 300 funded
      (debited funded funded_state 2 (pos 200)) (pos 466) (pos 466) (omega arith) payout_run

mint_run :
    Supply.mint_scaled env 1 2 1000 index funded
    ≡ ok ((false, pos 1332, pos 1332), credited funded funded_state 2 (pos 666))
unfolding Supply.mint_scaled State.get_state State.handle_incentives_action ◌+ℤ◌ checked_add_i128
    safe_u128_to_i128 ray_div_down u256_mul u256_div narrow to_u128
mint_run = refl

-- The debt token, at the same index: account 2 borrows 1000 and repays 300.
abbrev debt_env : DebtState.Env
debt_env = record { auth = λ a. true; current_borrow_index = some index }

abbrev borrowings : List (DebtState.Env × DebtHistory.Call)
borrowings =
    (debt_env, DebtHistory.Call.initialize_call 0 9 1 7)
    ∷ (debt_env, DebtHistory.Call.mint_scaled_call 1 2 1000 index)
    ∷ (debt_env, DebtHistory.Call.burn_scaled_call 1 2 300 index)
    ∷ []

abbrev debt_state : DebtState.DebtTokenState
debt_state = record {
  borrowed_asset = 9;
  pool_address = 1;
  total_debt_scaled = pos 467;
  decimals = 7;
}

borrowings_end : (DebtHistory.run DebtHistory.blank borrowings).state ≡ some debt_state
unfolding DebtHistory.run DebtHistory.outcome DebtState.initialize DebtSupply.mint_scaled
    DebtSupply.burn_scaled DebtSupply.sweep_dust DebtState.get_state
    DebtState.handle_incentives_action ◌+ℤ◌ ◌-ℤ◌ checked_add checked_sub checked_add_i128
    checked_sub_i128 safe_u128_to_i128 safe_i128_to_u128 ray_mul ray_div_up ray_div_down u256_mul
    u256_add u256_sub u256_div narrow to_u128
borrowings_end = refl

total_is_sum_example :
    debt_state.total_debt_scaled
    ≡ pos (sum_of_debts (DebtHistory.run DebtHistory.blank borrowings).debts)
total_is_sum_example = DebtHistory.total_is_sum borrowings debt_state borrowings_end

-- Account 2 owes 467 units, which show as 701.
abbrev owing : DebtState.DebtToken
owing = record DebtHistory.blank { state = some debt_state; debts = (2, 467) ∷ [] }

shown_run : DebtBalance.balance_of_with_index owing 2 index ≡ ok (pos 701)
unfolding DebtBalance.balance_of_with_index safe_u128_to_i128 ray_mul u256_mul u256_add u256_div
    narrow to_u128
shown_run = refl

repay_all_example :
    DebtSupply.burn_scaled debt_env 1 2 701 index owing
    ≡ ok
        ((true, pos (467 - 467), pos 0), DebtEffects.settled owing debt_state 2 0 (pos (467 - 467)))
repay_all_example =
    repay_all debt_env 1 2 index 701 467 owing debt_state refl refl refl (omega arith) (omega arith)
      (omega arith) (omega arith) (omega arith) refl shown_run

abbrev owing_after : DebtState.DebtToken
owing_after = DebtEffects.settled owing debt_state 2 267 (pos 267)

repay_run :
    DebtSupply.burn_scaled debt_env 1 2 300 index owing
    ≡ ok ((false, pos 267, pos 267), owing_after)
unfolding DebtSupply.burn_scaled DebtSupply.sweep_dust DebtState.get_state
    DebtState.handle_incentives_action ◌-ℤ◌ checked_sub checked_sub_i128 safe_u128_to_i128 ray_mul
    ray_div_down u256_mul u256_add u256_div narrow to_u128
repay_run = refl

repay_effect_example :
    (s : DebtState.DebtTokenState) × (n : ℕ) × (owing.state ≡ some s)
    × (1 ≡ s.pool_address)
    × (debt_env.auth 1 ≡ true)
    × (ray_div_down 300 index ≡ ok n)
    × (n ≤ debt_of 2 owing.debts)
    × (false ≡ (DebtEffects.left_after (debt_of 2 owing.debts) n == 0))
    × (owing_after
        ≡ DebtEffects.settled owing s 2 (DebtEffects.left_after (debt_of 2 owing.debts) n) (
            s.total_debt_scaled
            -ℤ pos (debt_of 2 owing.debts - DebtEffects.left_after (debt_of 2 owing.debts) n)))
repay_effect_example =
    DebtEffects.repay_effect debt_env 1 2 300 index owing owing_after (false, pos 267, pos 267)
      repay_run
