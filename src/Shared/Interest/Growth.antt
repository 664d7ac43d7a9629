-- ===== src/Shared/Interest/Growth.antt =====
-- Interest factors never shrink an index, and grow with time.
use k.Base.{
  ℕ, ◌+◌, ◌-◌, ◌*◌, ◌/◌, ◌≤◌, ◌<◌, ◌≡◌, ok, arith, div_mono, mul_mono, >>=-eq-ok, ◌==◌, inl, inr,
  Bool-cases, if◌then◌else◌, ltb, leb, leb→le, ◌⊎◌,
}
use k.Shared.Constants.{ray, seconds_per_year}
use k.Shared.Wide.{u256_mul, u256_div, narrow, checked_add, checked_sub, checked_mul, checked_div}
use k.Shared.RayMath.{Checked}
use k.Shared.Interest.{
  first_term, base_power_two, base_power_three, second_term, third_term, sum_of_terms,
  taylor_series, calculate_compound_interest, calculate_linear_interest,
}

first_term_lem : (rate exp v : ℕ) → first_term rate exp ≡ ok v → v ≡ rate * exp / seconds_per_year
unfolding first_term u256_mul u256_div narrow
first_term_lem rate exp v h = ground arith

second_term_lem : (a b p v : ℕ) → second_term a b p ≡ ok v → v ≡ a * b * p / 2
unfolding second_term u256_mul u256_div narrow
second_term_lem a b p v h = ground arith

third_term_lem : (a b c p v : ℕ) → third_term a b c p ≡ ok v → v ≡ a * b * c * p / 6
unfolding third_term u256_mul u256_div narrow
third_term_lem a b c p v h = ground arith

sum_of_terms_lem : (a b c v : ℕ) → sum_of_terms a b c ≡ ok v → v ≡ ray + a + b + c
unfolding sum_of_terms checked_add
sum_of_terms_lem a b c v h = ground arith

-- What a successful run has computed.
record Terms (rate exp v : ℕ) : Type 0 where
  first : ℕ
  power_two : ℕ
  power_three : ℕ
  second : ℕ
  third : ℕ
  first_eq : first_term rate exp ≡ ok first
  two_eq : base_power_two rate ≡ ok power_two
  three_eq : base_power_three power_two rate ≡ ok power_three
  second_eq : second_term exp (exp - 1) power_two ≡ ok second
  third_eq : third_term exp (exp - 1) (exp - 2) power_three ≡ ok third
  sum_eq : sum_of_terms first second third ≡ ok v

minus_one : (exp : ℕ) → (if ltb 0 exp then exp - 1 else 0) ≡ exp - 1
minus_one exp = ground arith

minus_two : (exp : ℕ) → (if ltb 1 exp then exp - 2 else 0) ≡ exp - 2
minus_two exp = ground arith

taylor_series-Terms : (rate exp v : ℕ) → taylor_series rate exp ≡ ok v → Terms rate exp v
unfolding taylor_series
taylor_series-Terms rate exp v h =
    let (first, e1, h1) =
      >>=-eq-ok (first_term rate exp) _ (rw (minus_one exp, minus_two exp) at h) in
    let (power_two, e2, h2) = >>=-eq-ok (base_power_two rate) _ h1 in
    let (power_three, e3, h3) = >>=-eq-ok (base_power_three power_two rate) _ h2 in
    let (second, e4, h4) = >>=-eq-ok (second_term exp (exp - 1) power_two) _ h3 in
    let (third, e5, h5) = >>=-eq-ok (third_term exp (exp - 1) (exp - 2) power_three) _ h4 in
    record {
      first = first;
      power_two = power_two;
      power_three = power_three;
      second = second;
      third = third;
      first_eq = e1;
      two_eq = e2;
      three_eq = e3;
      second_eq = e4;
      third_eq = e5;
      sum_eq = h5;
    }

-- Linear interest is one ray plus the pro-rata rate.
linear_lem :
    (rate last now v : ℕ)
    → calculate_linear_interest rate last now ≡ ok v
    → (last ≤ now) × (v ≡ ray + rate * (now - last) / seconds_per_year)
unfolding calculate_linear_interest checked_sub checked_mul checked_div checked_add
linear_lem rate last now v h = (ground arith, ground arith)

-- The early return, or the whole series.
abbrev Spent : ℕ → ℕ → ℕ → Type 0
Spent rate exp v = ((exp ≡ 0) × (v ≡ ray)) ⊎ ((0 < exp) × Terms rate exp v)

compound_cases :
    (rate last now v : ℕ)
    → calculate_compound_interest rate last now ≡ ok v
    → (last ≤ now) × Spent rate (now - last) v
unfolding calculate_compound_interest checked_sub
compound_cases rate last now v h = elim (Bool-cases (leb last now)) [
  | inl ordered ↦ (
    leb→le last now ordered,
    elim (Bool-cases (now - last == 0)) [
      | inl same ↦ inl (ground arith, ground arith)
      | inr moved ↦
          inr (ground arith, taylor_series-Terms rate (now - last) v (rw (ordered, moved) at h))
    ],
  )
  | inr back ↦ absurd (ground arith)
]

same_term : {a b : ℕ} (c : Checked) → c ≡ ok a → c ≡ ok b → a ≡ b
same_term c p q = cc

Terms-sum :
    (rate exp v : ℕ) (t : Terms rate exp v)
    → (v ≡ ray + t.first + t.second + t.third) × (t.first ≡ rate * exp / seconds_per_year)
Terms-sum rate exp v t = (
  sum_of_terms_lem t.first t.second t.third v t.sum_eq,
  first_term_lem rate exp t.first t.first_eq,
)

-- Each term grows with the time span.
module _ {m n : ℕ} (h : m ≤ n) where
  first_term_mono : (rate v w : ℕ) → first_term rate m ≡ ok v → first_term rate n ≡ ok w → v ≤ w
  first_term_mono rate v w p q =
      let product = mul_mono rate m rate n (omega arith) h in
      omega (
        arith,
        div_mono (rate * m) (rate * n) seconds_per_year (omega arith) product,
        first_term_lem rate m v p,
        first_term_lem rate n w q,
      )

  pairs_mono : m * (m - 1) ≤ n * (n - 1)
  pairs_mono = mul_mono m (m - 1) n (n - 1) h (omega arith)

  second_term_mono :
      (power v w : ℕ)
      → second_term m (m - 1) power ≡ ok v
      → second_term n (n - 1) power ≡ ok w
      → v ≤ w
  second_term_mono power v w p q =
      let product = mul_mono (m * (m - 1)) power (n * (n - 1)) power pairs_mono (omega arith) in
      omega (
        arith,
        div_mono (m * (m - 1) * power) (n * (n - 1) * power) 2 (omega arith) product,
        second_term_lem m (m - 1) power v p,
        second_term_lem n (n - 1) power w q,
      )

  third_term_mono :
      (power v w : ℕ)
      → third_term m (m - 1) (m - 2) power ≡ ok v
      → third_term n (n - 1) (n - 2) power ≡ ok w
      → v ≤ w
  third_term_mono power v w p q =
      let a : ℕ = m * (m - 1) * (m - 2) in
      let b : ℕ = n * (n - 1) * (n - 2) in
      let triples = mul_mono (m * (m - 1)) (m - 2) (n * (n - 1)) (n - 2) pairs_mono (omega arith) in
      omega (
        arith,
        div_mono (a * power) (b * power) 6 (omega arith)
            (mul_mono a power b power triples (omega arith)),
        third_term_lem m (m - 1) (m - 2) power v p,
        third_term_lem n (n - 1) (n - 2) power w q,
      )

  Terms-mono : (rate v w : ℕ) → Terms rate m v → Terms rate n w → v ≤ w
  Terms-mono rate v w s t =
      let two : s.power_two ≡ t.power_two = same_term (base_power_two rate) s.two_eq t.two_eq in
      let three : s.power_three ≡ t.power_three =
        same_term (base_power_three s.power_two rate) s.three_eq (rw two t.three_eq) in
      omega (
        arith,
        first_term_mono rate s.first t.first s.first_eq t.first_eq,
        second_term_mono s.power_two s.second t.second s.second_eq (rw two t.second_eq),
        third_term_mono s.power_three s.third t.third s.third_eq (rw three t.third_eq),
        (Terms-sum rate m v s).0,
        (Terms-sum rate n w t).0,
      )

-- Over the same span and rate, compound interest is at least linear interest, which is at least
-- one ray: an index never shrinks, and debt never grows more slowly than deposits at one rate.
pub linear-le-compound :
    (rate last now l c : ℕ)
    → calculate_linear_interest rate last now ≡ ok l
    → calculate_compound_interest rate last now ≡ ok c
    → (ray ≤ l) × (l ≤ c)
linear-le-compound rate last now l c p q =
    let linear = linear_lem rate last now l p in
    elim (compound_cases rate last now c q).1 [
      | inl (same, one) ↦
          let none_yet : rate * (now - last) ≡ 0 = grind arith in (omega arith, omega arith)
      | inr (_, t) ↦ let sum = Terms-sum rate (now - last) c t in (omega arith, omega arith)
    ]

-- The compound factor grows with the time of the reading.
pub compound_mono :
    (rate last now later v w : ℕ)
    → now ≤ later
    → calculate_compound_interest rate last now ≡ ok v
    → calculate_compound_interest rate last later ≡ ok w
    → (ray ≤ v) × (v ≤ w)
compound_mono rate last now later v w h p q =
    let (_, c) = compound_cases rate last now v p in
    let (_, d) = compound_cases rate last later w q in grows c d
  where
    grows : Spent rate (now - last) v → Spent rate (later - last) w → (ray ≤ v) × (v ≤ w)
    grows (inl (_, one)) (inl (_, one')) = omega arith
    grows (inl (_, one)) (inr (_, t)) = omega (arith, (Terms-sum rate (later - last) w t).0)
    grows (inr (moved, s)) (inl (same, one)) = absurd (omega arith)
    grows (inr (_, s)) (inr (_, t)) =
        (omega (arith, (Terms-sum rate (now - last) v s).0), Terms-mono (omega arith) rate v w s t)
