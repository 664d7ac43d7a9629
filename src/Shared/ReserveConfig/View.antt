-- ===== src/Shared/ReserveConfig/View.antt =====
-- The record of settings that the two words stand for.
use k.Base.{ℕ, ◌/◌, ◌%◌, ◌^◌, ◌≡◌, Bool, ◌==◌}
use k.Base.Bits.{bit_and_mask}
use k.Shared.ReserveConfig.{
  ReserveConfiguration, shr, get_ltv, get_liquidation_threshold, get_liquidation_bonus,
  get_decimals, is_active, is_frozen, is_borrowing_enabled, is_paused, is_flashloan_enabled,
  get_reserve_factor, get_min_remaining_debt, get_borrow_cap, get_supply_cap,
}

pub record Settings : Type 0 where
  pub ltv : ℕ
  pub liquidation_threshold : ℕ
  pub liquidation_bonus : ℕ
  pub decimals : ℕ
  pub active : Bool
  pub frozen : Bool
  pub borrowing_enabled : Bool
  pub paused : Bool
  pub flashloan_enabled : Bool
  pub reserve_factor : ℕ
  pub min_remaining_debt : ℕ
  pub borrow_cap : ℕ
  pub supply_cap : ℕ

-- What the getters read.
abbrev pub view : ReserveConfiguration → Settings
view c = record {
  ltv = get_ltv c;
  liquidation_threshold = get_liquidation_threshold c;
  liquidation_bonus = get_liquidation_bonus c;
  decimals = get_decimals c;
  active = is_active c;
  frozen = is_frozen c;
  borrowing_enabled = is_borrowing_enabled c;
  paused = is_paused c;
  flashloan_enabled = is_flashloan_enabled c;
  reserve_factor = get_reserve_factor c;
  min_remaining_debt = get_min_remaining_debt c;
  borrow_cap = get_borrow_cap c;
  supply_cap = get_supply_cap c;
}

abbrev pub field : ℕ → ℕ → ℕ → ℕ
field s w x = x / 2 ^ s % 2 ^ w

-- The fields of the low word as numbers, a flag being 0 or 1.
pub record LowFields : Type 0 where
  pub ltv : ℕ
  pub liquidation_threshold : ℕ
  pub liquidation_bonus : ℕ
  pub decimals : ℕ
  pub active : ℕ
  pub frozen : ℕ
  pub borrowing_enabled : ℕ
  pub paused : ℕ
  pub flashloan_enabled : ℕ
  pub reserve_factor : ℕ
  pub min_remaining_debt : ℕ

abbrev pub low_fields : ℕ → LowFields
low_fields low = record {
  ltv = low % 2 ^ 14;
  liquidation_threshold = field 14 14 low;
  liquidation_bonus = field 28 14 low;
  decimals = field 42 8 low;
  active = field 50 1 low;
  frozen = field 51 1 low;
  borrowing_enabled = field 52 1 low;
  paused = field 53 1 low;
  flashloan_enabled = field 56 1 low;
  reserve_factor = field 57 14 low;
  min_remaining_debt = field 71 32 low;
}

abbrev pub settings_of : LowFields → ℕ → Settings
settings_of f high = record {
  ltv = f.ltv;
  liquidation_threshold = f.liquidation_threshold;
  liquidation_bonus = f.liquidation_bonus;
  decimals = f.decimals;
  active = f.active == 1;
  frozen = f.frozen == 1;
  borrowing_enabled = f.borrowing_enabled == 1;
  paused = f.paused == 1;
  flashloan_enabled = f.flashloan_enabled == 1;
  reserve_factor = f.reserve_factor;
  min_remaining_debt = f.min_remaining_debt;
  borrow_cap = high % 2 ^ 64;
  supply_cap = field 64 64 high;
}

pub view-settings_of :
    (c : ReserveConfiguration) → view c ≡ settings_of (low_fields c.data_low) c.data_high
unfolding get_ltv get_liquidation_threshold get_liquidation_bonus get_decimals is_active is_frozen
    is_borrowing_enabled is_paused is_flashloan_enabled get_reserve_factor get_min_remaining_debt
    get_borrow_cap get_supply_cap
view-settings_of c = λ i. record {
  ltv = bit_and_mask 14 c.data_low i;
  liquidation_threshold = bit_and_mask 14 (shr c.data_low 14) i;
  liquidation_bonus = bit_and_mask 14 (shr c.data_low 28) i;
  decimals = bit_and_mask 8 (shr c.data_low 42) i;
  active = bit_and_mask 1 (shr c.data_low 50) i == 1;
  frozen = bit_and_mask 1 (shr c.data_low 51) i == 1;
  borrowing_enabled = bit_and_mask 1 (shr c.data_low 52) i == 1;
  paused = bit_and_mask 1 (shr c.data_low 53) i == 1;
  flashloan_enabled = bit_and_mask 1 (shr c.data_low 56) i == 1;
  reserve_factor = bit_and_mask 14 (shr c.data_low 57) i;
  min_remaining_debt = bit_and_mask 32 (shr c.data_low 71) i;
  borrow_cap = bit_and_mask 64 c.data_high i;
  supply_cap = bit_and_mask 64 (shr c.data_high 64) i;
}
