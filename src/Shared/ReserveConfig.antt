-- ===== src/Shared/ReserveConfig.antt =====
-- The bit-packed reserve configuration (`impl ReserveConfiguration` in
-- contracts/shared/src/utils.rs): two `u128` words, masks and shifts.
pub mod View
pub mod Fields
pub mod Update
use Prim.Native.Nat.{bit_and, bit_or}
use k.Base.{
  ℕ, ◌+◌, ◌-◌, ◌*◌, ◌/◌, ◌^◌, ◌==◌, ltb, if◌then◌else◌, Bool, Result, ok, ok_or, err, ◌>>=◌, ◌>>◌,
  fail_if, leb, some, none, Option,
}
use k.Shared.Constants.{u128_max}
use k.Shared.Errors.{
  ConfigurationError, invalid_ltv, invalid_liquidation_threshold, invalid_liquidation_bonus,
  math_overflow,
}
use k.Shared.RayMath.{Checked}

pub record ReserveConfiguration : Type 0 where
  pub data_low : ℕ
  pub data_high : ℕ

-- `x >> s`, `x << s` (of a value that fits), and `!x` on a `u128`.
abbrev pub shr : ℕ → ℕ → ℕ
shr x s = x / 2 ^ s

abbrev pub shl : ℕ → ℕ → ℕ
shl x s = x * 2 ^ s

abbrev pub complement : ℕ → ℕ
complement x = u128_max - x

module _ (c : ReserveConfiguration) where
  unfoldable pub get_ltv : ℕ
  get_ltv = bit_and c.data_low 0x3fff

  unfoldable pub get_liquidation_threshold : ℕ
  get_liquidation_threshold = bit_and (shr c.data_low 14) 0x3fff

  unfoldable pub get_liquidation_bonus : ℕ
  get_liquidation_bonus = bit_and (shr c.data_low 28) 0x3fff

  unfoldable pub get_decimals : ℕ
  get_decimals = bit_and (shr c.data_low 42) 0xff

  -- `10_u128.checked_pow(decimals)`
  unfoldable pub get_decimals_pow : Checked
  get_decimals_pow =
      let pow : ℕ = 10 ^ get_decimals in
      ok_or (if leb pow u128_max then some pow else none) math_overflow

  unfoldable pub is_active : Bool
  is_active = bit_and (shr c.data_low 50) 1 == 1

  unfoldable pub is_frozen : Bool
  is_frozen = bit_and (shr c.data_low 51) 1 == 1

  unfoldable pub is_borrowing_enabled : Bool
  is_borrowing_enabled = bit_and (shr c.data_low 52) 1 == 1

  unfoldable pub is_paused : Bool
  is_paused = bit_and (shr c.data_low 53) 1 == 1

  unfoldable pub is_flashloan_enabled : Bool
  is_flashloan_enabled = bit_and (shr c.data_low 56) 1 == 1

  unfoldable pub get_reserve_factor : ℕ
  get_reserve_factor = bit_and (shr c.data_low 57) 0x3fff

  unfoldable pub get_min_remaining_debt : ℕ
  get_min_remaining_debt = bit_and (shr c.data_low 71) 0xffff_ffff

  unfoldable pub get_borrow_cap : ℕ
  get_borrow_cap = bit_and c.data_high 0xffff_ffff_ffff_ffff

  unfoldable pub get_supply_cap : ℕ
  get_supply_cap = bit_and (shr c.data_high 64) 0xffff_ffff_ffff_ffff

  unfoldable pub set_borrow_cap : ℕ → ReserveConfiguration
  set_borrow_cap borrow_cap =
      let cleared : ℕ = bit_and c.data_high (complement 0xffff_ffff_ffff_ffff) in
      record c { data_high = bit_or cleared (bit_and borrow_cap 0xffff_ffff_ffff_ffff) }

  unfoldable pub set_supply_cap : ℕ → ReserveConfiguration
  set_supply_cap supply_cap =
      let cleared : ℕ = bit_and c.data_high (complement (shl 0xffff_ffff_ffff_ffff 64)) in
      record c { data_high = bit_or cleared (shl (bit_and supply_cap 0xffff_ffff_ffff_ffff) 64) }

  unfoldable pub set_ltv : ℕ → Result ConfigurationError ReserveConfiguration
  set_ltv ltv = do
    fail_if (ltb 10000 ltv) invalid_ltv
    let cleared = bit_and c.data_low (complement 0x3fff)
    ok (record c { data_low = bit_or cleared (bit_and ltv 0x3fff) })

  unfoldable pub set_liquidation_threshold : ℕ → Result ConfigurationError ReserveConfiguration
  set_liquidation_threshold liquidation_threshold = do
    fail_if (ltb 10000 liquidation_threshold) invalid_liquidation_threshold
    let cleared = bit_and c.data_low (complement (shl 0x3fff 14))
    ok (record c { data_low = bit_or cleared (shl (bit_and liquidation_threshold 0x3fff) 14) })

  unfoldable pub set_liquidation_bonus : ℕ → Result ConfigurationError ReserveConfiguration
  set_liquidation_bonus liquidation_bonus = do
    fail_if (ltb 10000 liquidation_bonus) invalid_liquidation_bonus
    let cleared = bit_and c.data_low (complement (shl 0x3fff 28))
    ok (record c { data_low = bit_or cleared (shl (bit_and liquidation_bonus 0x3fff) 28) })

  unfoldable pub set_reserve_factor : ℕ → ReserveConfiguration
  set_reserve_factor reserve_factor =
      let cleared : ℕ = bit_and c.data_low (complement (shl 0x3fff 57)) in
      record c { data_low = bit_or cleared (shl (bit_and reserve_factor 0x3fff) 57) }

  unfoldable pub set_min_remaining_debt : ℕ → ReserveConfiguration
  set_min_remaining_debt min_remaining_debt =
      let cleared : ℕ = bit_and c.data_low (complement (shl 0xffff_ffff 71)) in
      record c { data_low = bit_or cleared (shl (bit_and min_remaining_debt 0xffff_ffff) 71) }

  -- The five flag setters differ in the bit only.
  set_flag : ℕ → Bool → ReserveConfiguration
  set_flag s on = record c {
    data_low =
        if on then bit_or c.data_low (shl 1 s) else bit_and c.data_low (complement (shl 1 s));
  }

  unfoldable pub set_active : Bool → ReserveConfiguration
  unfolding set_flag
  set_active active = set_flag 50 active

  unfoldable pub set_frozen : Bool → ReserveConfiguration
  unfolding set_flag
  set_frozen frozen = set_flag 51 frozen

  unfoldable pub set_borrowing_enabled : Bool → ReserveConfiguration
  unfolding set_flag
  set_borrowing_enabled borrowing_enabled = set_flag 52 borrowing_enabled

  unfoldable pub set_paused : Bool → ReserveConfiguration
  unfolding set_flag
  set_paused paused = set_flag 53 paused

  unfoldable pub set_flashloan_enabled : Bool → ReserveConfiguration
  unfolding set_flag
  set_flashloan_enabled flashloan_enabled = set_flag 56 flashloan_enabled
