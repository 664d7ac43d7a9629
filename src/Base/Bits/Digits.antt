-- ===== src/Base/Bits/Digits.antt =====
-- The laws of `&`, `|` and `!` at each binary digit.
use Prim.Native.Nat.{
  ℕ, zero, suc, ◌+◌, ◌-◌, ◌*◌, ◌/◌, ◌%◌, ◌^◌, ◌≤◌, ◌<◌, min, max, digits, bitwise, bit_and, bit_or,
  bit_and-bitwise, bit_or-bitwise,
}
use mathlib.Core.Path.{◌≡◌, refl}
use native.Mathlib.Nat.{pow-suc, one-le-pow, div-div-eq-div-mul, pow-succ'}
use native.Mathlib.Omega.{arith}
use k.Base.Tests.{◌==◌, if◌then◌else◌}

-- Fuel at or above the first number changes nothing.
module _ (rest : ℕ → ℕ) (f : ℕ → ℕ → ℕ) where
  enough_fuel : (x k l y : ℕ) → x ≤ l → x ≤ k → digits rest f l x y ≡ digits rest f k x y
  enough_fuel (suc x) (suc k) (suc l) y below above =
      rw (enough_fuel (suc x / 2) k l (y / 2) (omega arith) (omega arith)) refl
  enough_fuel (suc x) zero l y below above = elim above [ ]
  enough_fuel (suc x) (suc k) zero y below above = elim below [ ]
  enough_fuel zero zero zero y below above = refl
  enough_fuel zero zero (suc l) y below above = refl
  enough_fuel zero (suc k) zero y below above = refl
  enough_fuel zero (suc k) (suc l) y below above = refl

  low_digit :
      (x y : ℕ)
      → f (suc x % 2) (y % 2) + bitwise rest f (suc x / 2) (y / 2) * 2 ≡ bitwise rest f (suc x) y
  low_digit x y =
      omega (arith, enough_fuel (suc x / 2) (suc x / 2) x (y / 2) (omega arith) (omega arith))

pub bit_and_digit : (x y : ℕ) → min (x % 2) (y % 2) + bit_and (x / 2) (y / 2) * 2 ≡ bit_and x y
bit_and_digit (suc x) y = simp bit_and-bitwise (low_digit (λ _. 0) min x y)
bit_and_digit zero y = simp bit_and-bitwise (omega arith)

pub bit_or_digit : (x y : ℕ) → max (x % 2) (y % 2) + bit_or (x / 2) (y / 2) * 2 ≡ bit_or x y
bit_or_digit (suc x) y = simp bit_or-bitwise (low_digit (λ v. v) max x y)
bit_or_digit zero y = simp bit_or-bitwise (omega arith)

-- The digit of `x` at position `n`.
pub digit : ℕ → ℕ → ℕ
digit zero x = x % 2
digit (suc n) x = digit n (x / 2)

pub digit_lem : (n x : ℕ) → x / 2 ^ n % 2 ≡ digit n x
unfolding digit
digit_lem zero x = omega arith
digit_lem (suc n) x = rw (← digit_lem n (x / 2), pow-succ' 2 n, ← div-div-eq-div-mul x 2 (2 ^ n))

pub digit-lt : (n x : ℕ) → digit n x < 2
unfolding digit
digit-lt zero x = omega arith
digit-lt (suc n) x = digit-lt n (x / 2)

pub digit-bit_and : (n a b : ℕ) → digit n (bit_and a b) ≡ min (digit n a) (digit n b)
unfolding digit
digit-bit_and zero a b = omega (arith, bit_and_digit a b)
digit-bit_and (suc n) a b =
    let half : bit_and a b / 2 ≡ bit_and (a / 2) (b / 2) = omega (arith, bit_and_digit a b) in
    rw half (digit-bit_and n (a / 2) (b / 2))

pub digit-bit_or : (n a b : ℕ) → digit n (bit_or a b) ≡ max (digit n a) (digit n b)
unfolding digit
digit-bit_or zero a b = omega (arith, bit_or_digit a b)
digit-bit_or (suc n) a b =
    let half : bit_or a b / 2 ≡ bit_or (a / 2) (b / 2) = omega (arith, bit_or_digit a b) in
    rw half (digit-bit_or n (a / 2) (b / 2))

pub digit-zero : (n : ℕ) → digit n 0 ≡ 0
unfolding digit
digit-zero zero = refl
digit-zero (suc n) = digit-zero n

pub digit-pow : (n s : ℕ) → digit n (2 ^ s) ≡ (if n == s then 1 else 0)
unfolding digit
digit-pow zero zero = refl
digit-pow zero (suc s) = ground (arith, pow-suc 2 s)
digit-pow (suc n) zero = ground (arith, digit-zero n)
digit-pow (suc n) (suc s) =
    let half : 2 ^ suc s / 2 ≡ 2 ^ s = omega (arith, pow-suc 2 s) in
    rw half (ground (arith, digit-pow n s))

-- `!x` on a word of `k` bits.
pub digit-complement : (n k x : ℕ) → n < k → x < 2 ^ k → digit n (2 ^ k - 1 - x) ≡ 1 - digit n x
unfolding digit
digit-complement n zero x h p = elim h [ ]
digit-complement zero (suc k) x h p = omega (arith, pow-suc 2 k, one-le-pow k 2)
digit-complement (suc n) (suc k) x h p =
    let doubled = pow-suc 2 k in
    let half : (2 ^ suc k - 1 - x) / 2 ≡ 2 ^ k - 1 - x / 2 = omega (arith, one-le-pow k 2) in
    rw half (digit-complement n k (x / 2) (omega arith) (omega arith))

-- The operations stay within the word.
pub bit_and-lt : (k a b : ℕ) → a < 2 ^ k → bit_and a b < 2 ^ k
bit_and-lt zero zero b p = simp bit_and-bitwise (omega arith)
bit_and-lt zero (suc a) b p = absurd (omega arith)
bit_and-lt (suc k) a b p =
    omega (arith, pow-suc 2 k, bit_and_digit a b, bit_and-lt k (a / 2) (b / 2))

pub bit_or-lt : (k a b : ℕ) → a < 2 ^ k → b < 2 ^ k → bit_or a b < 2 ^ k
bit_or-lt zero zero zero p q = omega arith
bit_or-lt zero (suc a) b p q = absurd (omega arith)
bit_or-lt zero a (suc b) p q = absurd (omega arith)
bit_or-lt (suc k) a b p q =
    omega (arith, pow-suc 2 k, bit_or_digit a b, bit_or-lt k (a / 2) (b / 2))
