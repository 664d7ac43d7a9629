-- ===== src/Shared/UserConfig/Flags.antt =====
-- The bitmap as a table of two flags for each reserve.
use Prim.Native.Nat.{bit_and, bit_or}
use native.Mathlib.Nat.{pow-le-pow_right}
use k.Base.{
  ℕ, Bool-cases, inl, inr, ◌+◌, ◌-◌, ◌*◌, ◌/◌, ◌^◌, ◌<◌, ◌≡◌, refl, ◌∙◌, ◌==◌, leb, if◌then◌else◌,
  Bool, true, false, arith,
}
use k.Base.Bits.{
  digit, digit_lem, digit-lt, digit-bit_and, digit-bit_or, digit-pow, digit-complement,
  bit_and_mask, bit_and-lt, bit_or-lt,
}
use k.Shared.UserConfig.{
  UserConfiguration, is_using_as_collateral, is_borrowing, set_using_as_collateral, set_borrowing,
}

-- The digit that a test reads.
bit_test : (n x : ℕ) → bit_and (x / 2 ^ n) 1 ≡ digit n x
bit_test n x = bit_and_mask 1 (x / 2 ^ n) ∙ digit_lem n x

pub is_using_as_collateral_lem :
    (c : UserConfiguration) (i : ℕ)
    → is_using_as_collateral c i ≡ (if leb 64 i then false else digit (i * 2) c.bits == 1)
unfolding is_using_as_collateral
is_using_as_collateral_lem c i = rw bit_test refl

pub is_borrowing_lem :
    (c : UserConfiguration) (i : ℕ)
    → is_borrowing c i ≡ (if leb 64 i then false else digit (i * 2 + 1) c.bits == 1)
unfolding is_borrowing
is_borrowing_lem c i = rw bit_test refl

-- One digit of the word after a bit is set or cleared.
digit-set : (n s x : ℕ) → digit n (bit_or x (2 ^ s)) ≡ (if n == s then 1 else digit n x)
digit-set n s x = ground (arith, digit-bit_or n x (2 ^ s), digit-pow n s, digit-lt n x)

pow_fits : (s : ℕ) → s < 128 → 2 ^ s < 2 ^ 128
pow_fits s h = omega (arith, pow-le-pow_right {n = 2} (omega arith) {i = s} {j = 127} (omega arith))

digit-clear :
    (n s x : ℕ)
    → n < 128
    → s < 128
    → digit n (bit_and x (2 ^ 128 - 1 - 2 ^ s)) ≡ (if n == s then 0 else digit n x)
digit-clear n s x hn hs = ground (
  arith,
  digit-bit_and n x (2 ^ 128 - 1 - 2 ^ s),
  digit-complement n 128 (2 ^ s) hn (pow_fits s hs),
  digit-pow n s,
  digit-lt n x,
)

-- The word after a write of the bit at position `s`.
abbrev written : ℕ → ℕ → Bool → ℕ
written s x on = if on then bit_or x (2 ^ s) else bit_and x (2 ^ 128 - 1 - 2 ^ s)

digit-written :
    (n s x : ℕ) (on : Bool)
    → n < 128
    → s < 128
    → (digit n (written s x on) == 1) ≡ (if n == s then on else digit n x == 1)
digit-written n s x true hn hs = ground (arith, digit-set n s x)
digit-written n s x false hn hs = ground (arith, digit-clear n s x hn hs)

written-lt : (s x : ℕ) (on : Bool) → s < 128 → x < 2 ^ 128 → written s x on < 2 ^ 128
written-lt s x true h p = bit_or-lt 128 x (2 ^ s) p (pow_fits s h)
written-lt s x false h p = bit_and-lt 128 x (2 ^ 128 - 1 - 2 ^ s) p

module _ (c : UserConfiguration) (i j : ℕ) (on : Bool) (hi : i < 64) (hj : j < 64) where
  -- Setting the collateral flag of reserve `i` is read back for that reserve, for no other one
  -- `j`, and changes no borrowing flag; both are below 64.
  pub set_using_as_collateral-reads :
      (is_using_as_collateral (set_using_as_collateral c i on) j
        ≡ (if j == i then on else is_using_as_collateral c j))
      × (is_borrowing (set_using_as_collateral c i on) j ≡ is_borrowing c j)
  unfolding set_using_as_collateral
  set_using_as_collateral-reads = (
    ground (
      arith,
      is_using_as_collateral_lem (record c { bits = written (i * 2) c.bits on }) j,
      is_using_as_collateral_lem c j,
      digit-written (j * 2) (i * 2) c.bits on (omega arith) (omega arith),
    ),
    ground (
      arith,
      is_borrowing_lem (record c { bits = written (i * 2) c.bits on }) j,
      is_borrowing_lem c j,
      digit-written (j * 2 + 1) (i * 2) c.bits on (omega arith) (omega arith),
    ),
  )

  -- Setting the borrowing flag of reserve `i` is read back for that reserve, for no other one `j`,
  -- and changes no collateral flag; both are below 64.
  pub set_borrowing-reads :
      (is_borrowing (set_borrowing c i on) j ≡ (if j == i then on else is_borrowing c j))
      × (is_using_as_collateral (set_borrowing c i on) j ≡ is_using_as_collateral c j)
  unfolding set_borrowing
  set_borrowing-reads = (
    ground (
      arith,
      is_borrowing_lem (record c { bits = written (i * 2 + 1) c.bits on }) j,
      is_borrowing_lem c j,
      digit-written (j * 2 + 1) (i * 2 + 1) c.bits on (omega arith) (omega arith),
    ),
    ground (
      arith,
      is_using_as_collateral_lem (record c { bits = written (i * 2 + 1) c.bits on }) j,
      is_using_as_collateral_lem c j,
      digit-written (j * 2) (i * 2 + 1) c.bits on (omega arith) (omega arith),
    ),
  )

-- The bitmap stays a `u128`, and an index past the last reserve changes nothing.
pub set_flags-lt :
    (c : UserConfiguration) (i : ℕ) (on : Bool)
    → c.bits < 2 ^ 128
    → ((set_using_as_collateral c i on).bits < 2 ^ 128) × ((set_borrowing c i on).bits < 2 ^ 128)
unfolding set_using_as_collateral set_borrowing
set_flags-lt c i on h = elim (Bool-cases (leb 64 i)) [
  | inl past ↦ rw past (h, h)
  | inr within ↦
      let small : i < 64 = ground arith in
      rw within (
        written-lt (i * 2) c.bits on (omega arith) h,
        written-lt (i * 2 + 1) c.bits on (omega arith) h,
      )
]
