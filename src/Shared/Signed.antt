-- ===== src/Shared/Signed.antt =====
-- Rust's checked `i128` arithmetic and the conversions `safe_u128_to_i128`, `safe_i128_to_u128` and
-- `safe_reserve_id` of contracts/shared/src/utils.rs. A failed conversion panics with `MathOverflow`.
use k.Base.{
  ℕ, ◌≤◌, ◌≡◌, Bool, Option, none, some, arith, ◌==◌, false, ltb, leb, if◌then◌else◌, Result, ok,
  panic, contract,
}
use k.Base.Int.{ℤ, pos, negsuc, ◌+ℤ◌, ◌-ℤ◌}
use k.Shared.Constants.{i128_max}
use k.Shared.Errors.{math_overflow_code}

abbrev pub is_zero : ℤ → Bool
is_zero (pos n) = n == 0
is_zero (negsuc n) = false

-- The value lies between -2^127 and 2^127 - 1.
abbrev pub in_i128 : ℤ → Bool
in_i128 (pos n) = leb n i128_max
in_i128 (negsuc n) = leb n i128_max

unfoldable pub checked_add_i128 : ℤ → ℤ → Option ℤ
checked_add_i128 a b = let sum = a +ℤ b in if in_i128 sum then some sum else none

unfoldable pub checked_sub_i128 : ℤ → ℤ → Option ℤ
checked_sub_i128 a b =
    let difference = a -ℤ b in if in_i128 difference then some difference else none

module _ {E : Type 0} where
  unfoldable pub safe_u128_to_i128 : ℕ → Result E ℤ
  safe_u128_to_i128 amount =
      if ltb i128_max amount then panic (contract math_overflow_code) else ok (pos amount)

  unfoldable pub safe_i128_to_u128 : ℤ → Result E ℕ
  safe_i128_to_u128 (pos n) = ok n
  safe_i128_to_u128 (negsuc n) = panic (contract math_overflow_code)

  -- `safe_reserve_id`: a reserve id as an index into the bitmap.
  unfoldable pub safe_reserve_id : ℕ → Result E ℕ
  safe_reserve_id id = if leb 64 id then panic (contract math_overflow_code) else ok id

  pub safe_i128_to_u128-eq-ok : (a : ℤ) (n : ℕ) → safe_i128_to_u128 a ≡ ok n → a ≡ pos n
  unfolding safe_i128_to_u128
  safe_i128_to_u128-eq-ok (pos m) n h = cc
  safe_i128_to_u128-eq-ok (negsuc m) n h = cc

  pub safe_u128_to_i128-eq-ok :
      (n : ℕ) (a : ℤ) → safe_u128_to_i128 n ≡ ok a → (a ≡ pos n) × (n ≤ i128_max)
  unfolding safe_u128_to_i128
  safe_u128_to_i128-eq-ok n a h = ground arith
