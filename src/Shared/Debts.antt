-- ===== src/Shared/Debts.antt =====
-- The debt token's ledger: unsigned debts by address, as an association list. An address that is
-- not listed owes 0, as the contract reads it.
use k.Base.{ℕ, ◌+◌, ◌≤◌, ◌≡◌, refl, arith, List, [], ◌∷◌, ◌==◌, if◌then◌else◌}
use k.Shared.Host.{Address}

abbrev pub Debts : Type 0
Debts = List (Address × ℕ)

abbrev pub debt_of : Address → Debts → ℕ
debt_of a [] = 0
debt_of a ((b, v) ∷ l) = if a == b then v else debt_of a l

abbrev pub put_debt : Address → ℕ → Debts → Debts
put_debt a v [] = (a, v) ∷ []
put_debt a v (e ∷ l) = if a == e.0 then (a, v) ∷ l else e ∷ put_debt a v l

abbrev pub sum_of_debts : Debts → ℕ
sum_of_debts [] = 0
sum_of_debts ((a, v) ∷ l) = v + sum_of_debts l

pub debt_of-put_debt :
    (a b : Address) (v : ℕ) (l : Debts)
    → debt_of b (put_debt a v l) ≡ (if b == a then v else debt_of b l)
debt_of-put_debt a b v [] = refl
debt_of-put_debt a b v (e ∷ l) = ground (arith, debt_of-put_debt a b v l)

-- A write changes the sum by the difference of the two debts.
pub sum_of_debts-put_debt :
    (a : Address) (v : ℕ) (l : Debts)
    → sum_of_debts (put_debt a v l) + debt_of a l ≡ sum_of_debts l + v
sum_of_debts-put_debt a v [] = omega arith
sum_of_debts-put_debt a v (e ∷ l) = grind (arith, sum_of_debts-put_debt a v l)

pub debt_of_le-sum : (a : Address) (l : Debts) → debt_of a l ≤ sum_of_debts l
debt_of_le-sum a [] = omega arith
debt_of_le-sum a ((b, v) ∷ l) = grind (arith, debt_of_le-sum a l)
