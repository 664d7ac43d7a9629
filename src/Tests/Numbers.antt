-- ===== src/Tests/Numbers.antt =====
-- The fixed-point arithmetic and the interest factors at concrete numbers.
use k.Base.{ℕ, ◌+◌, ◌*◌, ◌≤◌, ◌<◌, ◌≡◌, refl, arith, ok}
use k.Shared.Constants.{ray, half_ray}
use k.Shared.Wide.{
  narrow, to_u128, u256_mul, u256_add, u256_sub, u256_div, checked_add, checked_sub, checked_mul,
  checked_div,
}
use k.Shared.RayMath.{ray_mul, ray_mul_down, ray_div_down, ray_div_up}
use k.Shared.RayMath.Rounding.{Truncates, ray_mul-Truncates}
use k.Shared.RayMath.Scaled.{
  ray_div_up-ray_mul_down, ray_div_up-ray_mul, ray_div_down-ray_mul, ray_mul_down-ray_div_down,
}
use k.Shared.Interest.{
  calculate_linear_interest, calculate_compound_interest, taylor_series, first_term, second_term,
  third_term, base_power_two, base_power_three, sum_of_terms,
}
use k.Shared.Interest.Growth.{linear-le-compound}

-- An index of 1.5 rays.
abbrev index : ℕ
index = 1_500_000_000_000_000_000_000_000_000

ray_mul_run : ray_mul 7 index ≡ ok 11
unfolding ray_mul u256_mul u256_add u256_div narrow to_u128
ray_mul_run = refl

ray_mul_down_run : ray_mul_down 7 index ≡ ok 10
unfolding ray_mul_down u256_mul u256_div narrow to_u128
ray_mul_down_run = refl

ray_div_down_run : ray_div_down 10 index ≡ ok 6
unfolding ray_div_down u256_mul u256_div narrow to_u128
ray_div_down_run = refl

ray_mul_down_run_6 : ray_mul_down 6 index ≡ ok 9
unfolding ray_mul_down u256_mul u256_div narrow to_u128
ray_mul_down_run_6 = refl

ray_div_up_run : ray_div_up 11 index ≡ ok 8
unfolding ray_div_up u256_mul u256_add u256_sub u256_div narrow to_u128
ray_div_up_run = refl

ray_mul-Truncates_example : Truncates (7 * index + half_ray) ray (ray_mul 7 index)
ray_mul-Truncates_example = ray_mul-Truncates 7 index (omega arith) (omega arith)

ray_div_up-ray_mul_down_example : (y : ℕ) × (ray_div_up 10 index ≡ ok y) × (y ≤ 7)
ray_div_up-ray_mul_down_example =
    ray_div_up-ray_mul_down 7 index 10 (omega arith) (omega arith) (omega arith) ray_mul_down_run

ray_div_up-ray_mul_example : (y : ℕ) × (ray_div_up 11 index ≡ ok y) × (y ≤ 8) × (7 ≤ y)
ray_div_up-ray_mul_example =
    ray_div_up-ray_mul 7 index 11 (omega arith) (omega arith) (omega arith) (omega arith)
      ray_mul_run

ray_div_down-ray_mul_example : (y : ℕ) × (ray_div_down 11 index ≡ ok y) × (y ≤ 7) × (7 ≤ y + 1)
ray_div_down-ray_mul_example =
    ray_div_down-ray_mul 7 index 11 (omega arith) (omega arith) (omega arith) ray_mul_run

ray_mul_down-ray_div_down_example : (9 ≤ 10) × (10 * ray < 9 * ray + index + ray)
ray_mul_down-ray_div_down_example =
    ray_mul_down-ray_div_down 10 index 6 9 (omega arith) (omega arith) (omega arith)
      ray_div_down_run ray_mul_down_run_6

-- A yearly rate of 10%, after one and after two years.
abbrev rate : ℕ
rate = 100_000_000_000_000_000_000_000_000

abbrev year : ℕ
year = 31_536_000

linear_run : calculate_linear_interest rate 0 year ≡ ok (ray + rate)
unfolding calculate_linear_interest checked_sub checked_mul checked_div checked_add
linear_run = refl

abbrev compounded : ℕ
compounded = 1_105_162_042_821_782_412_575_504_000

abbrev compounded_twice : ℕ
compounded_twice = 1_221_296_343_588_279_793_471_008_000

compound_run : calculate_compound_interest rate 0 year ≡ ok compounded
unfolding calculate_compound_interest taylor_series first_term second_term third_term base_power_two
    base_power_three sum_of_terms checked_sub checked_mul checked_div checked_add ray_mul u256_mul
    u256_add u256_div narrow to_u128
compound_run = refl

compound_run_twice : calculate_compound_interest rate 0 (2 * year) ≡ ok compounded_twice
unfolding calculate_compound_interest taylor_series first_term second_term third_term base_power_two
    base_power_three sum_of_terms checked_sub checked_mul checked_div checked_add ray_mul u256_mul
    u256_add u256_div narrow to_u128
compound_run_twice = refl

linear-le-compound_example : (ray ≤ ray + rate) × (ray + rate ≤ compounded)
linear-le-compound_example =
    linear-le-compound rate 0 year (ray + rate) compounded linear_run compound_run
