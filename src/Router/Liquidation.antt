-- ===== src/Router/Liquidation.antt =====
-- What a liquidation may cover and what it seizes (`validate_close_factor` in src/liquidation.rs,
-- `calculate_liquidation_amounts_with_reserves` in src/calculation.rs).
use k.Base.{
  ℕ, ◌+◌, ◌*◌, ◌/◌, ◌^◌, ◌≤◌, ◌<◌, ◌≡◌, arith, ltb, if◌then◌else◌, ◌||◌, ok, ok_or, fail_if, ◌>>=◌,
  ◌↔◌, >>=-ok_elim, div_bounds, div_mono, mul_mono, sym, ap, refl,
}
use k.Shared.Constants.{
  IsU128, u128_max, basis_points, min_close_factor_threshold, max_liquidation_close_factor,
  default_liquidation_close_factor,
}
use k.Shared.Errors.{math_overflow, liquidation_amount_too_high}
use k.Shared.ReserveConfig.{get_decimals, get_liquidation_bonus}
use k.Shared.Wide.{checked_add, checked_mul, checked_div, u256_mul, u256_div, narrow, narrow-eq-ok}
use k.Router.Accrual.{Outcome, ReserveData}
use k.Router.Value.{value_in_base}

-- The share of a debt that one call may repay, in basis points; `threshold` is the stored health
-- factor below which all of it may go.
unfoldable pub close_factor : ℕ → ℕ → ℕ → ℕ → ℕ
close_factor threshold health_factor individual_debt_base individual_collateral_base =
    if ltb individual_debt_base min_close_factor_threshold
      || ltb individual_collateral_base min_close_factor_threshold
      || ltb health_factor threshold
    then max_liquidation_close_factor
    else default_liquidation_close_factor

unfoldable pub validate_close_factor : ℕ → ℕ → ℕ → ℕ → ℕ → Outcome (Unit {0})
unfolding close_factor
validate_close_factor threshold health_factor debt_base collateral_base to_cover_base = do
  product ←
      ok_or (checked_mul debt_base (close_factor threshold health_factor debt_base collateral_base))
        math_overflow
  max_liquidatable_debt ← ok_or (checked_div product basis_points) math_overflow
  fail_if (ltb max_liquidatable_debt to_cover_base) liquidation_amount_too_high

-- `10_u128.checked_pow(n).ok_or(MathOverflow)`
unfoldable pub pow_ten : ℕ → Outcome ℕ
pow_ten n = narrow (10 ^ n)

-- A base value in units of an asset: value * 10^decimals / (price * oracle_to_wad).
unfoldable pub units_of_value : ℕ → ℕ → ℕ → ℕ → Outcome ℕ
units_of_value value decimals_pow price oracle_to_wad = do
  denominator ← u256_mul price oracle_to_wad
  numerator ← u256_mul value decimals_pow
  quotient ← u256_div numerator denominator
  narrow quotient

unfoldable pub bonus_of : ℕ → ℕ → Outcome ℕ
bonus_of value bonus_bps = do
  product ← u256_mul value bonus_bps
  quotient ← u256_div product basis_points
  narrow quotient

-- (collateral without the bonus, collateral to seize)
unfoldable pub calculate_liquidation_amounts_with_reserves :
    ReserveData → ReserveData → ℕ → ℕ → ℕ → ℕ → Outcome (ℕ × ℕ)
unfolding pow_ten units_of_value bonus_of
calculate_liquidation_amounts_with_reserves collateral debt debt_to_cover collateral_price
      debt_price oracle_to_wad =
    do
      debt_decimals_pow ← pow_ten (get_decimals debt.configuration)
      debt_to_cover_base ← value_in_base debt_to_cover debt_price oracle_to_wad debt_decimals_pow
      decimals_pow ← pow_ten (get_decimals collateral.configuration)
      without_bonus ← units_of_value debt_to_cover_base decimals_pow collateral_price oracle_to_wad
      bonus_amount ← bonus_of debt_to_cover_base (get_liquidation_bonus collateral.configuration)
      base_with_bonus ← ok_or (checked_add debt_to_cover_base bonus_amount) math_overflow
      to_seize ← units_of_value base_with_bonus decimals_pow collateral_price oracle_to_wad
      ok (without_bonus, to_seize)

-- The largest amount that may be covered is the close factor's share: all of a debt whose position
-- is small or deeply under water, half of any other. The debt is one whose product with the largest
-- close factor fits a `u128`.
pub validate_close_factor_iff :
    (threshold health debt collateral cover : ℕ)
    → debt * max_liquidation_close_factor ≤ u128_max
    → (validate_close_factor threshold health debt collateral cover ≡ ok tt)
      ↔ (cover * basis_points ≤ debt * close_factor threshold health debt collateral)
unfolding validate_close_factor checked_mul checked_div close_factor
validate_close_factor_iff threshold health debt collateral cover small =
    (λ h. ground arith, λ h. ground arith)

units_of_value_lem :
    (v d p o u : ℕ) → units_of_value v d p o ≡ ok u → (0 < p * o) × (u ≡ v * d / (p * o)) × IsU128 u
unfolding units_of_value u256_mul u256_div narrow
units_of_value_lem v d p o u e = ground (arith, narrow-eq-ok (v * d / (p * o)) u)

bonus_of_lem :
    (v b r : ℕ)
    → bonus_of v b ≡ ok r
    → (r * basis_points ≤ v * b) × (v * b < (r + 1) * basis_points)
unfolding bonus_of u256_mul u256_div narrow
bonus_of_lem v b r e =
    let (low, high) = div_bounds (v * b) basis_points (omega arith) in
    let eq = (narrow-eq-ok (v * b / basis_points) r (ground arith)).0 in
    (ground (arith, low, eq), ground (arith, high, eq))

pow_ten_lem : (n d : ℕ) → pow_ten n ≡ ok d → d ≡ 10 ^ n
unfolding pow_ten
pow_ten_lem n d e = sym (narrow-eq-ok (10 ^ n) d e).0

checked_sum : (a b s : ℕ) → ok_or (checked_add a b) math_overflow ≡ ok s → s ≡ a + b
unfolding checked_add
checked_sum a b s e = ground arith

ok_inj : {A : Type 0} {x y : A} → ◌≡◌ {A = Outcome A} (ok x) (ok y) → x ≡ y
ok_inj e = cc

scaled_bound : (w u s c v : ℕ) → w * u ≤ s * c → s * basis_points ≤ v → w * u * basis_points ≤ v * c
scaled_bound w u s c v h k = omega (arith, mul_mono (s * basis_points) c v c k (omega arith))

scaled_room :
    (x w u s c v : ℕ)
    → x < w * u + u
    → s * c ≡ x
    → v ≤ (s + 1) * basis_points
    → v * c ≤ (w * u + u + c) * basis_points
scaled_room x w u s c v h e k =
    omega (arith, mul_mono v c ((s + 1) * basis_points) c k (omega arith))

-- What the debt covered is worth in collateral: `plain` is the most whole units that are worth no
-- more than the covered value. `seized` is no less, is worth at most that value and the reserve's
-- bonus on it, and falls short of it by at most a unit of the collateral and one of value.
pub seized_bounds :
    (collateral debt : ReserveData) (cover collateral_price debt_price oracle plain seized : ℕ)
    → calculate_liquidation_amounts_with_reserves collateral debt cover collateral_price debt_price
        oracle
      ≡ ok (plain, seized)
    → (value : ℕ) × (value_in_base cover debt_price oracle (10 ^ get_decimals debt.configuration)
        ≡ ok value)
      × (plain * (collateral_price * oracle) ≤ value * 10 ^ get_decimals collateral.configuration)
      × (value * 10 ^ get_decimals collateral.configuration
          < plain * (collateral_price * oracle) + collateral_price * oracle)
      × (plain ≤ seized)
      × (value
            * (basis_points + get_liquidation_bonus collateral.configuration)
            * 10 ^ get_decimals collateral.configuration
          ≤ (seized * (collateral_price * oracle)
              + collateral_price * oracle
              + 10 ^ get_decimals collateral.configuration)
            * basis_points)
      × (seized * (collateral_price * oracle) * basis_points
          ≤ value
            * (basis_points + get_liquidation_bonus collateral.configuration)
            * 10 ^ get_decimals collateral.configuration)
unfolding calculate_liquidation_amounts_with_reserves
seized_bounds collateral debt cover p q o plain seized e =
    >>=-ok_elim (pow_ten (get_decimals debt.configuration)) _ e λ dd e0 e1.
      >>=-ok_elim (value_in_base cover q o dd) _ e1 λ value ev e2.
        >>=-ok_elim (pow_ten (get_decimals collateral.configuration)) _ e2 λ cd ed e3.
          >>=-ok_elim (units_of_value value cd p o) _ e3 λ u eu e4.
            >>=-ok_elim (bonus_of value (get_liquidation_bonus collateral.configuration)) _ e4
              λ b eb e5. >>=-ok_elim (ok_or (checked_add value b) math_overflow) _ e5 λ s es e6.
                >>=-ok_elim (units_of_value s cd p o) _ e6 λ w ew e7.
                  let dd_eq = pow_ten_lem (get_decimals debt.configuration) dd e0 in
                  let cd_eq = pow_ten_lem (get_decimals collateral.configuration) cd ed in
                  let (pos_po, u_eq, _) = units_of_value_lem value cd p o u eu in
                  let (_, w_eq, _) = units_of_value_lem s cd p o w ew in
                  let s_eq = checked_sum value b s es in
                  let (bonus, bonus_high) = bonus_of_lem value _ b eb in
                  let (plain_low, plain_high) = div_bounds (value * cd) (p * o) pos_po in
                  let (_, seized_high) = div_bounds (s * cd) (p * o) pos_po in
                  let plain_low' : u * (p * o) ≤ value * cd = rw u_eq plain_low in
                  let plain_high' : value * cd < u * (p * o) + p * o = rw u_eq plain_high in
                  let seized_high' : s * cd < w * (p * o) + p * o = rw w_eq seized_high in
                  let grows : u ≤ w =
                    rw (u_eq, w_eq)
                      (div_mono (value * cd) (s * cd) (p * o) pos_po
                        (mul_mono value cd s cd (omega arith) (omega arith))) in
                  let low : w * (p * o) ≤ s * cd = rw w_eq (div_bounds (s * cd) (p * o) pos_po).0 in
                  let plain_eq : u ≡ plain = ap (λ r. r.0) (ok_inj e7) in
                  let seized_eq : w ≡ seized = ap (λ r. r.1) (ok_inj e7) in
                  (
                    value,
                    rw dd_eq at ev,
                    rw (plain_eq, cd_eq) at plain_low',
                    rw (plain_eq, cd_eq) at plain_high',
                    rw (plain_eq, seized_eq) at grows,
                    rw (seized_eq, cd_eq) at
                        (scaled_room (s * cd) w (p * o) s cd
                          (value * (basis_points + get_liquidation_bonus collateral.configuration))
                          seized_high' refl (omega arith)),
                    rw (seized_eq, cd_eq) at
                        (scaled_bound w (p * o) s cd
                          (value * (basis_points + get_liquidation_bonus collateral.configuration))
                          low (omega arith)),
                  )
