-- ===== src/Base/Results.antt =====
-- What a contract call ends with: a value, an error of the contract, or a panic that aborts the
-- invocation. `E` is the contract's error type. A call that does not end in `ok` is rolled back.
use Prim.Native.Nat.{ℕ}
use mathlib.Core.Path.{◌≡◌, refl}
use mathlib.Core.Bool.{Bool, true, false}
use mathlib.Core.Logic.{◌⊎◌, inl, inr}
use mathlib.Core.Option.{Option, none, some}

-- `host` is a trap of the host's arithmetic; `contract n` is `panic_with_error!` with code `n`.
pub data Fault : Type 0 where
  host : Fault
  contract : ℕ → Fault

pub data Result {ℓ} (E : Type 0) (A : Type ℓ) : Type ℓ where
  ok : A → Result E A
  err : E → Result E A
  panic : Fault → Result E A

-- `?` on a fallible call: what is not `ok` is handed on.
infixl 5 ◌>>=◌ ◌>>◌
abbrev pub ◌>>=◌ {ℓ κ} :
    {E : Type 0} {X : Type ℓ} {Y : Type κ} → Result E X → (X → Result E Y) → Result E Y
panic fault >>= next = panic fault
err error >>= next = err error
ok value >>= next = next value

abbrev pub ◌>>◌ {κ} : {E : Type 0} {Y : Type κ} → Result E (Unit {0}) → Result E Y → Result E Y
check >> next = check >>= λ done. next

-- `return Err(e)` when the test holds.
abbrev pub fail_if : {E : Type 0} → Bool → E → Result E (Unit {0})
fail_if true e = err e
fail_if false e = ok tt

-- `Option::ok_or`
abbrev pub ok_or {ℓ} : {E : Type 0} {A : Type ℓ} → Option A → E → Result E A
ok_or none e = err e
ok_or (some a) e = ok a

-- `Option::and_then`
abbrev pub and_then {ℓ κ} : {A : Type ℓ} {B : Type κ} → Option A → (A → Option B) → Option B
and_then none f = none
and_then (some a) f = f a

-- `Result::map_err(|_| e)`
abbrev pub map_err {ℓ} : {D E : Type 0} {A : Type ℓ} → Result D A → E → Result E A
map_err (ok a) e = ok a
map_err (err d) e = err e
map_err (panic p) e = panic p

-- `unwrap_or_else(|_| panic_with_error!(..))`, the code being that of the error raised.
abbrev pub or_panic {ℓ} : {D E : Type 0} {A : Type ℓ} → Result D A → ℕ → Result E A
or_panic (ok a) n = ok a
or_panic (err d) n = panic (contract n)
or_panic (panic p) n = panic p

-- Inversion of a successful bind, handing on the value and the two equations; for proofs where the
-- parts stay shut.
pub >>=-ok_elim {ℓ κ μ} :
    {E : Type 0} {X : Type ℓ} {Y : Type κ} {P : Type μ} (check : Result E X) (next : X → Result E Y)
    {y : Y}
    → (check >>= next) ≡ ok y
    → ((x : X) → check ≡ ok x → next x ≡ ok y → P)
    → P
>>=-ok_elim (panic fault) next e give = absurd (cc)
>>=-ok_elim (err error) next e give = absurd (cc)
>>=-ok_elim (ok x) next e give = give x refl e

pub >>-ok_elim {κ μ} :
    {E : Type 0} {Y : Type κ} {P : Type μ} (check : Result E (Unit {0})) (rest : Result E Y) {y : Y}
    → (check >> rest) ≡ ok y
    → (check ≡ ok tt → rest ≡ ok y → P)
    → P
>>-ok_elim check rest e give =
    >>=-ok_elim check (λ done. rest) e λ done first second. give first second

-- The same as a triple.
pub >>=-eq-ok {ℓ κ} :
    {E : Type 0} {X : Type ℓ} {Y : Type κ} (check : Result E X) (next : X → Result E Y) {y : Y}
    → (check >>= next) ≡ ok y
    → (x : X) × (check ≡ ok x) × (next x ≡ ok y)
>>=-eq-ok check next e = >>=-ok_elim check next e λ x first second. (x, first, second)

-- To split on a computed outcome and keep the equation.
pub Result-cases {ℓ} :
    {E : Type 0} {A : Type ℓ} (m : Result E A)
    → ((a : A) × (m ≡ ok a)) ⊎ (((e : E) × (m ≡ err e)) ⊎ ((p : Fault) × (m ≡ panic p)))
Result-cases (ok a) = inl (a, refl)
Result-cases (err e) = inr (inl (e, refl))
Result-cases (panic p) = inr (inr (p, refl))

pub map_err-eq-ok {ℓ} :
    {D E : Type 0} {A : Type ℓ} (m : Result D A) (e : E) {a : A} → map_err m e ≡ ok a → m ≡ ok a
map_err-eq-ok (ok b) e h = cc
map_err-eq-ok (err d) e h = cc
map_err-eq-ok (panic p) e h = cc

pub or_panic-eq-ok {ℓ} :
    {D E : Type 0} {A : Type ℓ} (m : Result D A) (n : ℕ) {a : A}
    → or_panic {E = E} m n ≡ ok a
    → m ≡ ok a
or_panic-eq-ok (ok b) n h = cc
or_panic-eq-ok (err d) n h = cc
or_panic-eq-ok (panic p) n h = cc

-- Two equal successes with a value and a state.
pub ok-injective_pair {ℓ κ} :
    {E : Type 0} {A : Type ℓ} {S : Type κ} (a b : A) (s t : S) (m : Result E (A × S))
    → m ≡ ok (a, s)
    → m ≡ ok (b, t)
    → (a ≡ b) × (s ≡ t)
ok-injective_pair a b s t m e f = (cc, cc)

pub ok_injective {ℓ} :
    {E : Type 0} {A : Type ℓ} (m : Result E A) (a b : A) → m ≡ ok a → m ≡ ok b → a ≡ b
ok_injective m a b e f = cc
