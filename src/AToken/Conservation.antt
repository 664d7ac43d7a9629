-- ===== src/AToken/Conservation.antt =====
-- The scaled total is the sum of the scaled balances, and no balance is negative: each operation
-- keeps it so.
use k.Base.{ℕ, ◌≡◌, sym, ◌∙◌, Option, none, some}
use k.Base.Int.{ℤ, pos, ◌+ℤ◌, ◌-ℤ◌, ◌≤ℤ◌, int_laws}
use k.Shared.Host.{Address}
use k.Shared.Balances.{Ledger, get, put, sum, IsCovered, sum-put, put-IsCovered, get_bounds}
use k.AToken.State.{ATokenState, Token}
use k.AToken.Effects.{credited, debited, moved}

abbrev pub Backed : Option ATokenState → Ledger → Type 0
Backed none l = sum l ≡ pos 0
Backed (some s) l = s.total_supply_scaled ≡ sum l

pub record Inv (t : Token) : Type 0 where
  pub covered : IsCovered t.balances
  pub backed : Backed t.state t.balances

pub total_of :
    {s : ATokenState} (t : Token)
    → Inv t
    → t.state ≡ some s
    → s.total_supply_scaled ≡ sum t.balances
total_of t i e = rw e at i.backed

pub credited-Inv :
    (t : Token) (s : ATokenState) (user : Address) (n : ℕ)
    → Inv t
    → t.state ≡ some s
    → Inv (credited t s user (pos n))
credited-Inv t s user n i e =
    let b : ℤ = get user t.balances in
    record {
      covered =
          put-IsCovered user (b +ℤ pos n) t.balances
            (omega (int_laws, (get_bounds user t.balances i.covered).0)) i.covered;
      backed = grind (int_laws, total_of t i e, sum-put user (b +ℤ pos n) t.balances);
    }

pub debited-Inv :
    (t : Token) (s : ATokenState) (user : Address) (a : ℤ)
    → Inv t
    → t.state ≡ some s
    → a ≤ℤ get user t.balances
    → Inv (debited t s user a)
debited-Inv t s user a i e h =
    let b : ℤ = get user t.balances in
    record {
      covered = put-IsCovered user (b -ℤ a) t.balances (omega int_laws) i.covered;
      backed = grind (int_laws, total_of t i e, sum-put user (b -ℤ a) t.balances);
    }

moved-sum :
    (from to : Address) (a : ℤ) (l : Ledger)
    → let rest = put from (get from l -ℤ a) l in sum (put to (get to rest +ℤ a) rest) ≡ sum l
moved-sum from to a l =
    let rest : Ledger = put from (get from l -ℤ a) l in
    grind (int_laws, sum-put from (get from l -ℤ a) l, sum-put to (get to rest +ℤ a) rest)

pub moved-Inv :
    (t : Token) (from to : Address) (n : ℕ)
    → Inv t
    → pos n ≤ℤ get from t.balances
    → Inv (moved t from to (pos n))
moved-Inv t from to n i h =
    let rest : Ledger = put from (get from t.balances -ℤ pos n) t.balances in
    let left =
      put-IsCovered from (get from t.balances -ℤ pos n) t.balances (omega int_laws) i.covered in
    record {
      covered =
          put-IsCovered to (get to rest +ℤ pos n) rest
            (omega (int_laws, (get_bounds to rest left).0)) left;
      backed = backed_by t.state i.backed;
    }
  where
    backed_by :
        (o : Option ATokenState) → Backed o t.balances → Backed o (moved t from to (pos n)).balances
    backed_by none b = moved-sum from to (pos n) t.balances ∙ b
    backed_by (some s) b = b ∙ sym (moved-sum from to (pos n) t.balances)
