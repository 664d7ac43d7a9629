-- ===== src/Router/Accrual/Growth.antt =====
-- Accrual shrinks neither index, and the read-only getters show what it would store.
use k.Base.{
  ℕ, ◌-◌, ◌≤◌, ◌<◌, ◌≡◌, refl, arith, ltb, leb, ◌==◌, false, if◌then◌else◌, ok, >>=-ok_elim,
  mul_mono, Result-cases, some, inl, inr, sym, ◌⊎◌, Bool-cases, true, ==_iff,
}
use k.Shared.Constants.{IsU128, ray}
use k.Shared.Host.{Address}
use k.Shared.Interest.{
  calculate_compound_interest, calculate_linear_interest, taylor_series, sum_of_terms, first_term,
  base_power_two, base_power_three, second_term, third_term,
}
use k.Shared.RayMath.{ray_mul}
use k.Shared.RayMath.Rounding.{ray_mul-Truncates}
use k.Shared.RayMath.Scaled.{Truncates-ok}
use k.Shared.Wide.{checked_add, checked_sub}
use k.Router.Accrual.{
  ReserveData, Reserves, accrued, update_state, update_state_without_store, get_reserve_data,
  set_reserve_data, get_current_liquidity_index, get_current_variable_borrow_index_with_data,
  get_current_variable_borrow_index, liquidity_index_at, borrow_index_at,
}

-- A factor of at least one ray does not shrink an index.
grown : (a b r : ℕ) → IsU128 a → IsU128 b → ray ≤ b → ray_mul a b ≡ ok r → (a ≤ r) × IsU128 r
grown a b r ha hb h e =
    let t = Truncates-ok _ ray r _ e (ray_mul-Truncates a b ha hb) in
    (omega (arith, mul_mono a ray a b (omega arith) h), t.2)

linear_bounds :
    (rate last now l : ℕ) → calculate_linear_interest rate last now ≡ ok l → (ray ≤ l) × IsU128 l
unfolding calculate_linear_interest checked_add
linear_bounds rate last now l e = ground arith

sum_of_terms_bounds : (a b c s : ℕ) → sum_of_terms a b c ≡ ok s → (ray ≤ s) × IsU128 s
unfolding sum_of_terms checked_add
sum_of_terms_bounds a b c s e = ground arith

taylor_series_bounds : (rate exp s : ℕ) → taylor_series rate exp ≡ ok s → (ray ≤ s) × IsU128 s
unfolding taylor_series
taylor_series_bounds rate exp s e = >>=-ok_elim (first_term rate exp) _ e λ a _ e1.
    >>=-ok_elim (base_power_two rate) _ e1 λ p _ e2.
      >>=-ok_elim (base_power_three p rate) _ e2 λ q _ e3.
        >>=-ok_elim (second_term _ _ p) _ e3
          λ b _ e4. >>=-ok_elim (third_term _ _ _ q) _ e4 λ c _ e5. sum_of_terms_bounds a b c s e5

compound_bounds :
    (rate last now c : ℕ) → calculate_compound_interest rate last now ≡ ok c → (ray ≤ c) × IsU128 c
unfolding calculate_compound_interest checked_sub
compound_bounds rate last now c e = elim (Result-cases (taylor_series rate (now - last))) [
  | inl (s, f) ↦ ground (arith, taylor_series_bounds rate (now - last) s f)
  | inr (inl (x, f)) ↦ ground arith
  | inr (inr (x, f)) ↦ ground arith
]

-- What time does to a reserve: the clock is set, both indices stay or grow, and nothing else moves.
pub record Grew (now : ℕ) (r r' : ReserveData) : Type 0 where
  pub forward : r.last_update_timestamp ≤ now
  pub liquidity : r.liquidity_index ≤ r'.liquidity_index
  pub borrow : r.variable_borrow_index ≤ r'.variable_borrow_index
  pub liquidity_fits : IsU128 r'.liquidity_index
  pub borrow_fits : IsU128 r'.variable_borrow_index
  pub rest : r' ≡ record r {
    liquidity_index = r'.liquidity_index;
    variable_borrow_index = r'.variable_borrow_index;
    last_update_timestamp = now;
  }

accrued_effect :
    (now : ℕ) (r r' : ReserveData)
    → IsU128 r.liquidity_index
    → IsU128 r.variable_borrow_index
    → r.last_update_timestamp ≤ now
    → accrued now r ≡ ok r'
    → Grew now r r'
unfolding accrued
accrued_effect now r r' hl hb h e =
    >>=-ok_elim (calculate_linear_interest r.current_liquidity_rate r.last_update_timestamp now) _ e
      λ l el e1.
        >>=-ok_elim
          (calculate_compound_interest r.current_variable_borrow_rate r.last_update_timestamp now) _
          e1
          λ c ec e2. >>=-ok_elim (ray_mul r.liquidity_index l) _ e2 λ i ei e3.
            >>=-ok_elim (ray_mul r.variable_borrow_index c) _ e3 λ j ej e4.
              let (l_low, l_fits) = linear_bounds _ _ now l el in
              let (c_low, c_fits) = compound_bounds _ _ now c ec in
              let (i_low, i_fits) = grown _ l i hl l_fits l_low ei in
              let (j_low, j_fits) = grown _ c j hb c_fits c_low ej in
              record {
                forward = h;
                liquidity = ground arith;
                borrow = ground arith;
                liquidity_fits = ground arith;
                borrow_fits = ground arith;
                rest = ground arith;
              }

-- Either no time has passed and nothing changes, or the accrued data is stored.
pub update_state_cases :
    (now : ℕ) (asset : Address) (r r' : ReserveData) (m m' : Reserves)
    → update_state now asset r m ≡ ok (r', m')
    → ((now ≡ r.last_update_timestamp) × (r' ≡ r) × (m' ≡ m))
      ⊎ ((r.last_update_timestamp < now)
          × (accrued now r ≡ ok r')
          × (m' ≡ set_reserve_data m asset r'))
unfolding update_state
update_state_cases now asset r r' m m' e = elim (Result-cases (accrued now r)) [
  | inl (s, f) ↦ ground arith
  | inr (inl (x, f)) ↦ ground arith
  | inr (inr (x, f)) ↦ ground arith
]

set_reserve_data_reads :
    (m : Reserves) (asset other : Address) (r : ReserveData)
    → set_reserve_data m asset r other ≡ (if other == asset then some r else m other)
unfolding set_reserve_data
set_reserve_data_reads m asset other r = refl

-- On indices that are `u128` values, a successful accrual of the stored data is never backwards in
-- time; the indices are `u128` values that did not shrink, the clock is set, and nothing else of
-- the reserve changes. The result is what is stored, and no other asset is touched.
pub update_state_effect :
    (now : ℕ) (asset other : Address) (r r' : ReserveData) (m m' : Reserves)
    → m asset ≡ some r
    → IsU128 r.liquidity_index
    → IsU128 r.variable_borrow_index
    → update_state now asset r m ≡ ok (r', m')
    → Grew now r r' × (m' other ≡ (if other == asset then some r' else m other))
update_state_effect now asset other r r' m m' stored hl hb e =
    elim (update_state_cases now asset r r' m m' e) [
      | inl (same, eq, eqm) ↦
          rw (eq, eqm)
            (
              record {
                forward = omega arith;
                liquidity = omega arith;
                borrow = omega arith;
                liquidity_fits = hl;
                borrow_fits = hb;
                rest = rw same refl;
              },
              kept_by (Bool-cases (other == asset)),
            )
      | inr (later, f, eqm) ↦ (
        accrued_effect now r r' hl hb (omega arith) f,
        rw eqm (set_reserve_data_reads m asset other r'),
      )
    ]
  where
    kept_by :
        ((other == asset) ≡ true) ⊎ ((other == asset) ≡ false)
        → m other ≡ (if other == asset then some r else m other)
    kept_by (inl same) =
        let itself : (asset == asset) ≡ true = (==_iff asset asset).1 refl in
        let named : other ≡ asset = (==_iff other asset).0 same in rw (named, itself) stored
    kept_by (inr ne) = rw ne refl

accrued_indices :
    (now : ℕ) (r r' : ReserveData)
    → accrued now r ≡ ok r'
    → (liquidity_index_at now r ≡ ok (r'.liquidity_index))
      × (borrow_index_at now r ≡ ok (r'.variable_borrow_index))
      × (r'.last_update_timestamp ≡ now)
unfolding accrued
accrued_indices now r r' e =
    >>=-ok_elim (calculate_linear_interest r.current_liquidity_rate r.last_update_timestamp now) _ e
      λ l el e1.
        >>=-ok_elim
          (calculate_compound_interest r.current_variable_borrow_rate r.last_update_timestamp now) _
          e1
          λ c ec e2. >>=-ok_elim (ray_mul r.liquidity_index l) _ e2 λ i ei e3.
            >>=-ok_elim (ray_mul r.variable_borrow_index c) _ e3 λ j ej e4.
              let i_eq : i ≡ r'.liquidity_index = ground arith in
              let j_eq : j ≡ r'.variable_borrow_index = ground arith in
              (rw (el, ei, i_eq) refl, rw (ec, ej, j_eq) refl, ground arith)

-- What the read-only getters show is what an update at the same time gives.
pub getters_agree :
    (now : ℕ) (asset : Address) (r r' : ReserveData) (m m' : Reserves)
    → m asset ≡ some r
    → update_state now asset r m ≡ ok (r', m')
    → (get_current_liquidity_index now asset m ≡ ok (r'.liquidity_index))
      × (get_current_variable_borrow_index now asset m ≡ ok (r'.variable_borrow_index))
      × (update_state_without_store now r ≡ ok r')
unfolding get_reserve_data get_current_liquidity_index get_current_variable_borrow_index
    get_current_variable_borrow_index_with_data update_state_without_store
getters_agree now asset r r' m m' stored e = elim (update_state_cases now asset r r' m m' e) [
  | inl (same, eq, eqm) ↦ rw (stored, eq) (ground arith, ground arith, ground arith)
  | inr (later, f, eqm) ↦
      let (a, b, c) = accrued_indices now r r' f in
      let not_before : ltb now r.last_update_timestamp ≡ false = ground arith in
      let not_same : (now == r.last_update_timestamp) ≡ false = ground arith in
      let not_early : leb now r.last_update_timestamp ≡ false = ground arith in
      (rw (stored, not_before, not_same) a, rw (stored, not_before, not_same) b, rw not_early f)
]

-- Updating again at the same time succeeds and changes nothing.
pub update_state_again :
    (now : ℕ) (asset : Address) (r r' : ReserveData) (m m' : Reserves)
    → update_state now asset r m ≡ ok (r', m')
    → update_state now asset r' m' ≡ ok (r', m')
unfolding update_state
update_state_again now asset r r' m m' e =
    settled_now (elim (update_state_cases now asset r r' m m' e) [
      | inl (same, eq, eqm) ↦ rw eq (sym same)
      | inr (later, f, eqm) ↦ (accrued_indices now r r' f).2
    ])
  where
    settled_now : r'.last_update_timestamp ≡ now → update_state now asset r' m' ≡ ok (r', m')
    settled_now same = rw same (ground arith)
