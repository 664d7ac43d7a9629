-- ===== src/Shared/ReserveConfig/Fields.antt =====
-- Replacing one field of the low word leaves the others.
use Prim.Native.Nat.{bit_and, bit_or}
use native.Mathlib.Nat.{mod-lt, one-le-pow}
use k.Base.{
  ℕ, ◌+◌, ◌-◌, ◌*◌, ◌<◌, ◌≤◌, ◌/◌, ◌%◌, ◌^◌, ◌≡◌, refl, Bool, true, false, ◌==◌, if◌then◌else◌,
  arith,
}
use k.Base.Bits.{bit_and_mask, set_field, clear_field, raise_bit}
use k.Shared.ReserveConfig.View.{LowFields, low_fields}

-- The low word with the field of `w` bits at position `s` replaced by `v`.
abbrev pub put : ℕ → ℕ → ℕ → ℕ → ℕ
put s w x v = (x / 2 ^ s / 2 ^ w * 2 ^ w + v) * 2 ^ s + x % 2 ^ s

-- Field by field equality, which the arithmetic tactics prove at once.
pub record Same (a b : LowFields) : Type 0 where
  pub ltv_eq : a.ltv ≡ b.ltv
  pub liquidation_threshold_eq : a.liquidation_threshold ≡ b.liquidation_threshold
  pub liquidation_bonus_eq : a.liquidation_bonus ≡ b.liquidation_bonus
  pub decimals_eq : a.decimals ≡ b.decimals
  pub active_eq : a.active ≡ b.active
  pub frozen_eq : a.frozen ≡ b.frozen
  pub borrowing_enabled_eq : a.borrowing_enabled ≡ b.borrowing_enabled
  pub paused_eq : a.paused ≡ b.paused
  pub flashloan_enabled_eq : a.flashloan_enabled ≡ b.flashloan_enabled
  pub reserve_factor_eq : a.reserve_factor ≡ b.reserve_factor
  pub min_remaining_debt_eq : a.min_remaining_debt ≡ b.min_remaining_debt

pub Same-path : (a b : LowFields) → Same a b → a ≡ b
Same-path a b e = λ i. record {
  ltv = e.ltv_eq i;
  liquidation_threshold = e.liquidation_threshold_eq i;
  liquidation_bonus = e.liquidation_bonus_eq i;
  decimals = e.decimals_eq i;
  active = e.active_eq i;
  frozen = e.frozen_eq i;
  borrowing_enabled = e.borrowing_enabled_eq i;
  paused = e.paused_eq i;
  flashloan_enabled = e.flashloan_enabled_eq i;
  reserve_factor = e.reserve_factor_eq i;
  min_remaining_debt = e.min_remaining_debt_eq i;
}

-- Clearing a field and writing a cut value into it.
pub stored :
    (s n w x v : ℕ)
    → w ≤ n
    → x / 2 ^ s < 2 ^ n
    → bit_or (bit_and x (2 ^ s * (2 ^ n - 2 ^ w) + (2 ^ s - 1))) (bit_and v (2 ^ w - 1) * 2 ^ s)
      ≡ put s w x (v % 2 ^ w)
stored s n w x v h p =
    rw (bit_and_mask w v)
      (set_field s n w x (v % 2 ^ w) h p (mod-lt v (one-le-pow w 2 (omega arith))))

abbrev pub flag_bit : Bool → ℕ
flag_bit on = if on then 1 else 0

-- Lowering and raising one bit.
pub flagged :
    (s n x : ℕ) (on : Bool)
    → 1 ≤ n
    → x / 2 ^ s < 2 ^ n
    → (if on then bit_or x (1 * 2 ^ s) else bit_and x (2 ^ s * (2 ^ n - 2) + (2 ^ s - 1)))
      ≡ put s 1 x (flag_bit on)
flagged s n x true h p = let one : 1 * 2 ^ s ≡ 2 ^ s = omega arith in rw one (raise_bit s x)
flagged s n x false h p =
    let none_added : x / 2 ^ s / 2 * 2 + 0 ≡ x / 2 ^ s / 2 * 2 = omega arith in
    rw none_added (clear_field s n 1 x h p)

pub flag_bit-lt : (on : Bool) → flag_bit on < 2 ^ 1
flag_bit-lt true = omega arith
flag_bit-lt false = omega arith

pub flag_bit_lem : (on : Bool) → (flag_bit on == 1) ≡ on
flag_bit_lem true = refl
flag_bit_lem false = refl

module _ (x v : ℕ) where
  pub put-ltv : v < 2 ^ 14 → Same (low_fields (put 0 14 x v)) (record (low_fields x) { ltv = v })
  put-ltv h = omega arith

  pub put-liquidation_threshold :
      v < 2 ^ 14
      → Same (low_fields (put 14 14 x v)) (record (low_fields x) { liquidation_threshold = v })
  put-liquidation_threshold h = omega arith

  pub put-liquidation_bonus :
      v < 2 ^ 14
      → Same (low_fields (put 28 14 x v)) (record (low_fields x) { liquidation_bonus = v })
  put-liquidation_bonus h = omega arith

  pub put-active :
      v < 2 ^ 1 → Same (low_fields (put 50 1 x v)) (record (low_fields x) { active = v })
  put-active h = omega arith

  pub put-frozen :
      v < 2 ^ 1 → Same (low_fields (put 51 1 x v)) (record (low_fields x) { frozen = v })
  put-frozen h = omega arith

  pub put-borrowing_enabled :
      v < 2 ^ 1 → Same (low_fields (put 52 1 x v)) (record (low_fields x) { borrowing_enabled = v })
  put-borrowing_enabled h = omega arith

  pub put-paused :
      v < 2 ^ 1 → Same (low_fields (put 53 1 x v)) (record (low_fields x) { paused = v })
  put-paused h = omega arith

  pub put-flashloan_enabled :
      v < 2 ^ 1 → Same (low_fields (put 56 1 x v)) (record (low_fields x) { flashloan_enabled = v })
  put-flashloan_enabled h = omega arith

  pub put-reserve_factor :
      v < 2 ^ 14 → Same (low_fields (put 57 14 x v)) (record (low_fields x) { reserve_factor = v })
  put-reserve_factor h = omega arith

  pub put-min_remaining_debt :
      v < 2 ^ 32
      → Same (low_fields (put 71 32 x v)) (record (low_fields x) { min_remaining_debt = v })
  put-min_remaining_debt h = omega arith
