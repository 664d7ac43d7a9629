-- ===== src/Base/Bits/Fields.antt =====
-- Fields of adjacent bits: reading one by a mask, clearing it, and writing a cleared one.
use Prim.Native.Nat.{ℕ, zero, suc, ◌+◌, ◌-◌, ◌*◌, ◌/◌, ◌%◌, ◌^◌, ◌≤◌, ◌<◌, bit_and, bit_or}
use mathlib.Core.Path.{◌≡◌, refl, ap}
use native.Mathlib.Nat.{
  pow-suc, one-le-pow, div-div-eq-div-mul, pow-succ', mod-eq_of_lt, mod-lt, div-add-mod',
}
use native.Mathlib.Omega.{arith}
use k.Base.Bits.Digits.{bit_and_digit, bit_or_digit}

bit_and_zero_fuel : (n a : ℕ) → a ≤ n → bit_and a 0 ≡ 0
bit_and_zero_fuel n zero h = refl
bit_and_zero_fuel zero (suc a) h = elim h [ ]
bit_and_zero_fuel (suc n) (suc a) h =
    omega (arith, bit_and_digit (suc a) 0, bit_and_zero_fuel n (suc a / 2) (omega arith))

bit_or_zero_fuel : (n a : ℕ) → a ≤ n → bit_or a 0 ≡ a
bit_or_zero_fuel n zero h = refl
bit_or_zero_fuel zero (suc a) h = elim h [ ]
bit_or_zero_fuel (suc n) (suc a) h =
    omega (arith, bit_or_digit (suc a) 0, bit_or_zero_fuel n (suc a / 2) (omega arith))

pow_times : (q k : ℕ) → q * 2 ^ suc k ≡ 2 * (q * 2 ^ k)
pow_times q k = omega (arith, ap (λ (t : ℕ). q * t) (pow-suc 2 k))

half_shift : (x k : ℕ) → x / 2 / 2 ^ k ≡ x / 2 ^ suc k
half_shift x k = rw (pow-succ' 2 k) (div-div-eq-div-mul x 2 (2 ^ k))

mod_pow_suc : (x k : ℕ) → x % 2 ^ suc k ≡ 2 * (x / 2 % 2 ^ k) + x % 2
mod_pow_suc x k = grind (arith, pow-suc 2 k, half_shift x k, pow_times (x / 2 ^ suc k) k)

-- A mask of `k` ones takes the remainder.
pub bit_and_mask : (k x : ℕ) → bit_and x (2 ^ k - 1) ≡ x % 2 ^ k
bit_and_mask zero x = omega (arith, bit_and_zero_fuel x x (omega arith))
bit_and_mask (suc k) x =
    let half : (2 ^ suc k - 1) / 2 ≡ 2 ^ k - 1 = omega (arith, pow-suc 2 k, one-le-pow k 2) in
    let low = rw half at (bit_and_digit x (2 ^ suc k - 1)) in
    omega (arith, low, bit_and_mask k (x / 2), mod_pow_suc x k, pow-suc 2 k, one-le-pow k 2)

-- The complement, in a word of `n` bits, of a mask of `w` ones clears the low bits.
clear_low : (n w x : ℕ) → w ≤ n → x < 2 ^ n → bit_and x (2 ^ n - 2 ^ w) ≡ x / 2 ^ w * 2 ^ w
clear_low n zero x h p = omega (arith, bit_and_mask n x, mod-eq_of_lt p)
clear_low zero (suc w) x h p = elim h [ ]
clear_low (suc n) (suc w) x h p =
    let ones = pow-suc 2 n in
    let more = pow-suc 2 w in
    let half : (2 ^ suc n - 2 ^ suc w) / 2 ≡ 2 ^ n - 2 ^ w = omega arith in
    let low = rw half at (bit_and_digit x (2 ^ suc n - 2 ^ suc w)) in
    let rest = rw (half_shift x w) at (clear_low n w (x / 2) (omega arith) (omega arith)) in
    omega (arith, low, rest, pow_times (x / 2 ^ suc w) w)

times_pow : (q k : ℕ) → 2 ^ suc k * q ≡ 2 * (2 ^ k * q)
times_pow q k = omega (arith, ap (λ (t : ℕ). t * q) (pow-suc 2 k))

-- A mask with ones below position `s` acts above it, and keeps what is below.
and_above :
    (s m x : ℕ) → bit_and x (2 ^ s * m + (2 ^ s - 1)) ≡ bit_and (x / 2 ^ s) m * 2 ^ s + x % 2 ^ s
and_above zero m x =
    let same : 1 * m + 0 ≡ m = omega arith in
    let one : x / 1 ≡ x = omega arith in rw (same, one) (omega arith)
and_above (suc s) m x =
    let half : (2 ^ suc s * m + (2 ^ suc s - 1)) / 2 ≡ 2 ^ s * m + (2 ^ s - 1) =
      omega (arith, pow-suc 2 s, one-le-pow s 2, times_pow m s) in
    let odd : (2 ^ suc s * m + (2 ^ suc s - 1)) % 2 ≡ 1 =
      omega (arith, pow-suc 2 s, one-le-pow s 2, times_pow m s) in
    let low = rw (half, odd) at (bit_and_digit x (2 ^ suc s * m + (2 ^ suc s - 1))) in
    let rest = rw (half_shift x s) at (and_above s m (x / 2)) in
    omega (arith, low, rest, mod_pow_suc x s, pow_times (bit_and (x / 2 ^ suc s) m) s)

-- `x & !(mask << s)`, in a word of `n + s` bits, the mask being `w` ones: the field is cleared,
-- the bits beside it stay.
pub clear_field :
    (s n w x : ℕ)
    → w ≤ n
    → x / 2 ^ s < 2 ^ n
    → bit_and x (2 ^ s * (2 ^ n - 2 ^ w) + (2 ^ s - 1))
      ≡ x / 2 ^ s / 2 ^ w * 2 ^ w * 2 ^ s + x % 2 ^ s
clear_field s n w x h p = rw (← clear_low n w (x / 2 ^ s) h p) (and_above s (2 ^ n - 2 ^ w) x)

-- `|` acts above position `s` where one side has no bits below it.
or_above : (s c a v : ℕ) → a < 2 ^ s → bit_or (c * 2 ^ s + a) (v * 2 ^ s) ≡ bit_or c v * 2 ^ s + a
or_above zero c a v p =
    let none_below : c * 1 + a ≡ c = omega arith in
    let same : v * 1 ≡ v = omega arith in rw (none_below, same) (omega arith)
or_above (suc s) c a v p =
    let left : (c * 2 ^ suc s + a) / 2 ≡ c * 2 ^ s + a / 2 = omega (arith, pow_times c s) in
    let right : v * 2 ^ suc s / 2 ≡ v * 2 ^ s = omega (arith, pow_times v s) in
    let low = rw (left, right) at (bit_or_digit (c * 2 ^ suc s + a) (v * 2 ^ suc s)) in
    omega (
      arith,
      low,
      or_above s c (a / 2) v (omega (arith, pow-suc 2 s)),
      pow_times c s,
      pow_times v s,
      pow_times (bit_or c v) s,
    )

or_below : (w c v : ℕ) → v < 2 ^ w → bit_or (c * 2 ^ w) v ≡ c * 2 ^ w + v
or_below zero c v p =
    let empty : v ≡ 0 = omega arith in
    rw (empty) (omega (arith, bit_or_zero_fuel (c * 1) (c * 1) (omega arith)))
or_below (suc w) c v p =
    let left : c * 2 ^ suc w / 2 ≡ c * 2 ^ w = omega (arith, pow_times c w) in
    let low = rw left at (bit_or_digit (c * 2 ^ suc w) v) in
    omega (arith, low, or_below w c (v / 2) (omega (arith, pow-suc 2 w)), pow_times c w)

-- `x | (v << s)` where the field of `w` bits at position `s` is clear: a sum.
pub write_field :
    (s w c a v : ℕ)
    → a < 2 ^ s
    → v < 2 ^ w
    → bit_or (c * 2 ^ w * 2 ^ s + a) (v * 2 ^ s) ≡ (c * 2 ^ w + v) * 2 ^ s + a
write_field s w c a v p q = rw (← or_below w c v q) (or_above s (c * 2 ^ w) a v p)

-- Writing `v` into the field at once: clear it, then put the new bits in.
pub set_field :
    (s n w x v : ℕ)
    → w ≤ n
    → x / 2 ^ s < 2 ^ n
    → v < 2 ^ w
    → bit_or (bit_and x (2 ^ s * (2 ^ n - 2 ^ w) + (2 ^ s - 1))) (v * 2 ^ s)
      ≡ (x / 2 ^ s / 2 ^ w * 2 ^ w + v) * 2 ^ s + x % 2 ^ s
set_field s n w x v h p q =
    rw (clear_field s n w x h p) (
      write_field s w (x / 2 ^ s / 2 ^ w) (x % 2 ^ s) v (mod-lt x (one-le-pow s 2 (omega arith))) q)

bit_or-one : (c : ℕ) → bit_or c 1 ≡ c / 2 * 2 + 1
bit_or-one c = omega (arith, bit_or_digit c 1, bit_or_zero_fuel (c / 2) (c / 2) (omega arith))

-- `x | (1 << s)` sets one bit, whatever it was.
pub raise_bit : (s x : ℕ) → bit_or x (2 ^ s) ≡ (x / 2 ^ s / 2 * 2 + 1) * 2 ^ s + x % 2 ^ s
raise_bit s x =
    let bound = mod-lt x (one-le-pow s 2 (omega arith)) in
    let whole : x / 2 ^ s * 2 ^ s + x % 2 ^ s ≡ x = omega (arith, div-add-mod' x (2 ^ s)) in
    let unit : 1 * 2 ^ s ≡ 2 ^ s = omega arith in
    let split = rw (whole, unit) at (or_above s (x / 2 ^ s) (x % 2 ^ s) 1 bound) in
    rw (bit_or-one (x / 2 ^ s)) at split

-- The same for the field at position 0, where the code shifts nothing.
pub set_low_field :
    (n w x v : ℕ)
    → w ≤ n
    → x < 2 ^ n
    → v < 2 ^ w
    → bit_or (bit_and x (2 ^ n - 2 ^ w)) v ≡ x / 2 ^ w * 2 ^ w + v
set_low_field n w x v h p q = rw (clear_low n w x h p) (or_below w (x / 2 ^ w) v q)
