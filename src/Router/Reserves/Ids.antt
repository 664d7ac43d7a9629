-- ===== src/Router/Reserves/Ids.antt =====
-- The ids of the reserves: below 64, and different for different assets.
use k.Base.{ℕ, ◌≤◌, ◌<◌, ◌≡◌, arith, ◌==◌, false, some, Bool-cases, inl, inr, ◌⊎◌}
use k.Shared.Constants.{max_reserves}
use k.Shared.Host.{Address}
use k.Router.Accrual.{ReserveData, Reserves, set_reserve_data}
use k.Router.State.{Pool}
use k.Router.Reserves.{add_reserve, forget_reserve, with_reserve}

-- Every stored reserve has an id that was given out, under which it is found.
pub record HasIds (p : Pool) : Type 0 where
  pub few : p.next_reserve_id ≤ max_reserves
  pub given : (a : Address) (r : ReserveData) → p.reserves a ≡ some r → r.id < p.next_reserve_id
  pub indexed :
      (a : Address) (r : ReserveData)
      → p.reserves a ≡ some r
      → p.reserve_address_by_id r.id ≡ some a

-- Two assets of a pool have different ids.
pub distinct_ids :
    (p : Pool) (a b : Address) (r s : ReserveData)
    → HasIds p
    → p.reserves a ≡ some r
    → p.reserves b ≡ some s
    → r.id ≡ s.id
    → a ≡ b
distinct_ids p a b r s i e f same =
    let first = i.indexed a r e in let second = i.indexed b s f in cc

set_reserve_data_cases :
    (m : Reserves) (a b : Address) (r s : ReserveData)
    → set_reserve_data m a r b ≡ some s
    → ((b ≡ a) × (r ≡ s)) ⊎ (m b ≡ some s)
unfolding set_reserve_data
set_reserve_data_cases m a b r s h = elim (Bool-cases (b == a)) [
  | inl same ↦ let found = rw same at h in inl (ground arith, cc)
  | inr other ↦ inr (rw other at h)
]

pub add_reserve-HasIds :
    (p : Pool) (asset : Address) (r : ReserveData)
    → r.id ≡ p.next_reserve_id
    → p.next_reserve_id < max_reserves
    → HasIds p
    → HasIds (add_reserve p asset r)
unfolding add_reserve
add_reserve-HasIds p asset r id room i = record {
  few = omega arith;
  given = λ a s e. elim (set_reserve_data_cases p.reserves asset a r s e) [
    | inl (_, same) ↦ ground arith
    | inr there ↦ let below = i.given a s there in omega arith
  ];
  indexed = λ a s e. elim (set_reserve_data_cases p.reserves asset a r s e) [
    | inl (here, same) ↦ ground arith
    | inr there ↦ let below = i.given a s there in let entry = i.indexed a s there in ground arith
  ];
}

-- A reserve that is stored again under its own id.
pub with_reserve-HasIds :
    (p : Pool) (asset : Address) (r s : ReserveData)
    → p.reserves asset ≡ some r
    → s.id ≡ r.id
    → HasIds p
    → HasIds (with_reserve p asset s)
with_reserve-HasIds p asset r s found same i = record {
  few = i.few;
  given = λ a t e. elim (set_reserve_data_cases p.reserves asset a s t e) [
    | inl (_, eq) ↦ let below = i.given asset r found in ground arith
    | inr there ↦ i.given a t there
  ];
  indexed = λ a t e. elim (set_reserve_data_cases p.reserves asset a s t e) [
    | inl (here, eq) ↦ let entry = i.indexed asset r found in ground arith
    | inr there ↦ i.indexed a t there
  ];
}

forgotten_cases :
    (p : Pool) (asset a : Address) (i : ℕ) (s : ReserveData)
    → (forget_reserve p asset i).reserves a ≡ some s
    → ((a == asset) ≡ false) × (p.reserves a ≡ some s)
unfolding forget_reserve
forgotten_cases p asset a i s h = elim (Bool-cases (a == asset)) [
  | inl same ↦ let gone = rw same at h in absurd (cc)
  | inr other ↦ (other, rw other at h)
]

pub forget_reserve-HasIds :
    (p : Pool) (asset : Address) (r : ReserveData)
    → p.reserves asset ≡ some r
    → HasIds p
    → HasIds (forget_reserve p asset r.id)
unfolding forget_reserve
forget_reserve-HasIds p asset r found i = record {
  few = i.few;
  given = λ a s e. i.given a s (forgotten_cases p asset a r.id s e).1;
  indexed = λ a s e.
      let (other, there) = forgotten_cases p asset a r.id s e in
      elim (Bool-cases (s.id == r.id)) [
        | inl same ↦
            let eq = distinct_ids p a asset s r i there found (ground arith) in
            absurd (ground arith)
        | inr apart ↦ rw apart (i.indexed a s there)
      ];
}
