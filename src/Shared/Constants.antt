-- ===== src/Shared/Constants.antt =====
-- contracts/shared/src/constants.rs: the fixed-point units and limits, and the ranges of Rust's
-- integers.
use k.Base.{ℕ, ◌-◌, ◌^◌, ◌≤◌, leb, if◌then◌else◌}

abbrev pub u128_max : ℕ
u128_max = 2 ^ 128 - 1

abbrev pub i128_max : ℕ
i128_max = 2 ^ 127 - 1

-- A value that a `u128` holds.
abbrev pub IsU128 : ℕ → Type 0
IsU128 n = n ≤ u128_max

abbrev pub wad : ℕ
wad = 1_000_000_000_000_000_000

abbrev pub half_wad : ℕ
half_wad = 500_000_000_000_000_000

abbrev pub ray : ℕ
ray = 1_000_000_000_000_000_000_000_000_000

abbrev pub half_ray : ℕ
half_ray = 500_000_000_000_000_000_000_000_000

abbrev pub ray_wad_ratio : ℕ
ray_wad_ratio = 1_000_000_000

abbrev pub half_ray_wad_ratio : ℕ
half_ray_wad_ratio = 500_000_000

abbrev pub seconds_per_year : ℕ
seconds_per_year = 31_536_000

abbrev pub basis_points : ℕ
basis_points = 10_000

abbrev pub half_basis_points : ℕ
half_basis_points = 5_000

abbrev pub health_factor_liquidation_threshold : ℕ
health_factor_liquidation_threshold = 1_000_000_000_000_000_000

abbrev pub wad_precision : ℕ
wad_precision = 18

abbrev pub max_reserves : ℕ
max_reserves = 64

abbrev pub default_liquidation_close_factor : ℕ
default_liquidation_close_factor = 5000

abbrev pub max_liquidation_close_factor : ℕ
max_liquidation_close_factor = 10000

abbrev pub min_close_factor_threshold : ℕ
min_close_factor_threshold = 2_000_000_000_000_000_000_000

abbrev pub min_leftover_base : ℕ
min_leftover_base = 1_000_000_000_000_000_000_000

-- `calculate_oracle_to_wad_factor`
unfoldable pub calculate_oracle_to_wad_factor : ℕ → ℕ
calculate_oracle_to_wad_factor precision =
    if leb wad_precision precision then 1 else 10 ^ (wad_precision - precision)
