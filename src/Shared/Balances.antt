-- ===== src/Shared/Balances.antt =====
-- A token's ledger: balances by address, as an association list. An address that is not listed has
-- the balance 0, as the contracts read it.
use k.Base.{◌≡◌, refl, arith, List, [], ◌∷◌, ◌==◌, if◌then◌else◌}
use k.Base.Int.{ℤ, pos, ◌+ℤ◌, ◌≤ℤ◌, int_laws}
use k.Shared.Host.{Address}

abbrev pub Ledger : Type 0
Ledger = List (Address × ℤ)

abbrev pub get : Address → Ledger → ℤ
get a [] = pos 0
get a ((b, v) ∷ l) = if a == b then v else get a l

abbrev pub put : Address → ℤ → Ledger → Ledger
put a v [] = (a, v) ∷ []
put a v (e ∷ l) = if a == e.0 then (a, v) ∷ l else e ∷ put a v l

abbrev pub sum : Ledger → ℤ
sum [] = pos 0
sum ((a, v) ∷ l) = v +ℤ sum l

-- No balance is negative.
abbrev pub IsCovered : Ledger → Type 0
IsCovered [] = Unit {0}
IsCovered ((a, v) ∷ l) = (pos 0 ≤ℤ v) × IsCovered l

pub get-put :
    (a b : Address) (v : ℤ) (l : Ledger) → get b (put a v l) ≡ (if b == a then v else get b l)
get-put a b v [] = refl
get-put a b v (e ∷ l) = ground (arith, get-put a b v l)

-- A write changes the total by the difference of the two balances.
pub sum-put : (a : Address) (v : ℤ) (l : Ledger) → sum (put a v l) +ℤ get a l ≡ sum l +ℤ v
sum-put a v [] = omega int_laws
sum-put a v (e ∷ l) = grind (int_laws, sum-put a v l)

pub put-IsCovered :
    (a : Address) (v : ℤ) (l : Ledger) → pos 0 ≤ℤ v → IsCovered l → IsCovered (put a v l)
put-IsCovered a v [] h c = (h, tt)
put-IsCovered a v (e ∷ l) h c = ground (arith, put-IsCovered a v l h c.1)

pub sum_nonneg : (l : Ledger) → IsCovered l → pos 0 ≤ℤ sum l
sum_nonneg [] c = omega arith
sum_nonneg ((a, v) ∷ l) c = omega (int_laws, sum_nonneg l c.1)

-- Every balance lies between 0 and the total.
pub get_bounds : (a : Address) (l : Ledger) → IsCovered l → (pos 0 ≤ℤ get a l) × (get a l ≤ℤ sum l)
get_bounds a [] c = (omega arith, omega arith)
get_bounds a ((b, v) ∷ l) c = grind (int_laws, get_bounds a l c.1, sum_nonneg l c.1)
