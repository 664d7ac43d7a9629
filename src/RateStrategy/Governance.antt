-- ===== src/RateStrategy/Governance.antt =====
-- Histories of calls: what an administrator can and cannot do to the contract.
use k.Base.{
  ℕ, ◌+◌, ◌≤◌, ◌≡◌, ◌≢◌, ◌↔◌, refl, ◌==◌, Bool, true, false, Option, none, some, ok, err, panic,
  arith, List, [], ◌∷◌, inl, inr, Bool-cases,
}
use k.Shared.Constants.{IsU128, basis_points}
use k.Shared.Host.{Address, Auth}
use k.RateStrategy.Curve.{
  InterestRateParams, max_total_rate, validate_interest_rate_params, CalculatedRates,
}
use k.RateStrategy.Bounds.{IsCurve, validate_iff, calculate_with_total}
use k.RateStrategy.Admin.{
  Strategy, Outcome, blank, set_asset_params, initialize, params_for, calculate_interest_rates,
  update_interest_rate_params, set_asset_interest_rate_params, propose_admin, accept_admin,
  cancel_admin_proposal,
}

-- The calls that change the contract's storage.
pub data Call : Type 0 where
  initialize_call : Address → InterestRateParams → Call
  update_params : Address → InterestRateParams → Call
  set_asset : Address → Address → InterestRateParams → Call
  propose : Address → Address → Call
  accept cancel : Address → Call

unfoldable pub outcome : Auth → Call → Strategy → Outcome Strategy
outcome auth (initialize_call admin p) s = initialize admin p s
outcome auth (update_params caller p) s = update_interest_rate_params auth caller p s
outcome auth (set_asset caller asset p) s = set_asset_interest_rate_params auth caller asset p s
outcome auth (propose caller pending) s = propose_admin auth caller pending s
outcome auth (accept caller) s = accept_admin auth caller s
outcome auth (cancel caller) s = cancel_admin_proposal auth caller s

-- A call that fails leaves the storage as it was.
abbrev pub kept : Strategy → Outcome Strategy → Strategy
kept s (ok t) = t
kept s (err e) = s
kept s (panic f) = s

unfoldable pub run : Strategy → List (Auth × Call) → Strategy
run s [] = s
run s ((auth, c) ∷ cs) = run (kept s (outcome auth c s)) cs

-- What each call needs, and exactly what it does.
abbrev pub Effect : Auth → Call → Strategy → Strategy → Type 0
Effect auth (initialize_call admin p) s t =
    (s.initialized ≡ false)
    × (validate_interest_rate_params p ≡ ok tt)
    × (t ≡ record s { admin = some admin; params = p; initialized = true })
Effect auth (update_params caller p) s t =
    (s.admin ≡ some caller)
    × (auth caller ≡ true)
    × (validate_interest_rate_params p ≡ ok tt)
    × (t ≡ record s { params = p })
Effect auth (set_asset caller asset p) s t =
    (s.admin ≡ some caller)
    × (auth caller ≡ true)
    × (validate_interest_rate_params p ≡ ok tt)
    × (t ≡ record s { asset_params = set_asset_params s.asset_params asset p })
Effect auth (propose caller pending) s t =
    (s.admin ≡ some caller) × (auth caller ≡ true) × (t ≡ record s { pending_admin = some pending })
Effect auth (accept caller) s t =
    (s.pending_admin ≡ some caller)
    × (auth caller ≡ true)
    × (s.admin ≢ none)
    × (t ≡ record s { admin = some caller; pending_admin = none })
Effect auth (cancel caller) s t =
    (s.admin ≡ some caller)
    × (auth caller ≡ true)
    × (s.pending_admin ≢ none)
    × (t ≡ record s { pending_admin = none })

-- A call succeeds exactly when its caller, signature and arguments are right, and then it has
-- exactly its effect.
pub outcome_iff :
    (auth : Auth) (c : Call) (s t : Strategy) → (outcome auth c s ≡ ok t) ↔ Effect auth c s t
unfolding outcome initialize update_interest_rate_params set_asset_interest_rate_params
    propose_admin accept_admin cancel_admin_proposal
outcome_iff auth (initialize_call admin p) s t = (λ h. ground arith, λ e. ground arith)
outcome_iff auth (update_params caller p) s t = (λ h. ground arith, λ e. ground arith)
outcome_iff auth (set_asset caller asset p) s t = (λ h. ground arith, λ e. ground arith)
outcome_iff auth (propose caller pending) s t = (λ h. ground arith, λ e. ground arith)
outcome_iff auth (accept caller) s t = (λ h. ground arith, λ e. ground arith)
outcome_iff auth (cancel caller) s t = (λ h. ground arith, λ e. ground arith)

abbrev CurveIf : Bool → InterestRateParams → Type 0
CurveIf true p = IsCurve p
CurveIf false p = Unit {0}

abbrev CurveSome : Option InterestRateParams → Type 0
CurveSome none = Unit {0}
CurveSome (some p) = IsCurve p

-- Once initialised, every stored parameter set is a valid curve.
pub record Inv (s : Strategy) : Type 0 where
  pub main : CurveIf s.initialized s.params
  pub assets : (a : Address) → CurveSome (s.asset_params a)

blank-Inv : Inv blank
blank-Inv = record { main = tt; assets = λ a. tt }

valid-IsCurve :
    (p : InterestRateParams) {u : Unit {0}} → validate_interest_rate_params p ≡ ok u → IsCurve p
valid-IsCurve p h = (validate_iff p).0 h

CurveIf-any : (b : Bool) (p : InterestRateParams) → IsCurve p → CurveIf b p
CurveIf-any true p c = c
CurveIf-any false p c = tt

set_asset_params-Curve :
    (table : Address → Option InterestRateParams) (asset a : Address) (p : InterestRateParams)
    → IsCurve p
    → CurveSome (table a)
    → CurveSome (set_asset_params table asset p a)
unfolding set_asset_params
set_asset_params-Curve table asset a p c h = elim (Bool-cases (a == asset)) [
  | inl same ↦ rw same c
  | inr other ↦ rw other h
]

Effect-Inv : (auth : Auth) (c : Call) (s t : Strategy) → Effect auth c s t → Inv s → Inv t
Effect-Inv auth (initialize_call admin p) s t (_, valid, e) i =
    rw e (record { main = valid-IsCurve p valid; assets = i.assets })
Effect-Inv auth (update_params caller p) s t (_, _, valid, e) i =
    rw e (record { main = CurveIf-any s.initialized p (valid-IsCurve p valid); assets = i.assets })
Effect-Inv auth (set_asset caller asset p) s t (_, _, valid, e) i = rw e (record {
  main = i.main;
  assets =
      λ a. set_asset_params-Curve s.asset_params asset a p (valid-IsCurve p valid) (i.assets a);
})
Effect-Inv auth (propose caller pending) s t (_, _, e) i =
    rw e (record { main = i.main; assets = i.assets })
Effect-Inv auth (accept caller) s t (_, _, _, e) i =
    rw e (record { main = i.main; assets = i.assets })
Effect-Inv auth (cancel caller) s t (_, _, _, e) i =
    rw e (record { main = i.main; assets = i.assets })

kept-Inv :
    (auth : Auth) (c : Call) (s : Strategy) (o : Outcome Strategy)
    → outcome auth c s ≡ o
    → Inv s
    → Inv (kept s o)
kept-Inv auth c s (ok t) e i = Effect-Inv auth c s t ((outcome_iff auth c s t).0 e) i
kept-Inv auth c s (err x) e i = i
kept-Inv auth c s (panic x) e i = i

run-Inv : (s : Strategy) (cs : List (Auth × Call)) → Inv s → Inv (run s cs)
unfolding run
run-Inv s [] i = i
run-Inv s ((auth, c) ∷ cs) i = run-Inv (kept s (outcome auth c s)) cs (kept-Inv auth c s _ refl i)

params_for-Curve :
    (s : Strategy) (asset : Address) → Inv s → s.initialized ≡ true → IsCurve (params_for s asset)
unfolding params_for
params_for-Curve s asset i h = choose (s.asset_params asset) (i.assets asset)
  where
    choose :
        (o : Option InterestRateParams)
        → CurveSome o
        → IsCurve (elim o [ some p ↦ p | none ↦ s.params ])
    choose none c = rw h at i.main
    choose (some p) c = c

-- Whatever calls were made before, an initialised contract computes rates for every asset: they
-- never fail on amounts whose sum is a `u128` and a reserve factor of at most 100%, the borrow
-- rate is at most the cap on the sum of the components, and suppliers earn no more than that.
pub calculate_interest_rates_total :
    (cs : List (Auth × Call)) (asset : Address) (available debt factor : ℕ)
    → (run blank cs).initialized ≡ true
    → IsU128 (available + debt)
    → factor ≤ basis_points
    → (q : CalculatedRates) × (calculate_interest_rates (run blank cs) asset available debt factor
        ≡ ok q)
      × (q.variable_borrow_rate ≤ max_total_rate)
      × (q.liquidity_rate ≤ q.variable_borrow_rate)
unfolding calculate_interest_rates
calculate_interest_rates_total cs asset available debt factor h fits small =
    let curve = params_for-Curve (run blank cs) asset (run-Inv blank cs blank-Inv) h in
    let (q, e, _, hi, le) =
      calculate_with_total (params_for (run blank cs) asset) available debt factor curve fits
        small in
    (q, e, omega (arith, curve.total_le), le)

-- The administrator of an initialised contract changes by one call only: the pending
-- administrator accepts, having signed.
pub admin_changes :
    (auth : Auth) (c : Call) (s t : Strategy) (old new : Address)
    → s.initialized ≡ true
    → s.admin ≡ some old
    → outcome auth c s ≡ ok t
    → t.admin ≡ some new
    → new ≢ old
    → (c ≡ accept new) × (s.pending_admin ≡ some new) × (auth new ≡ true) × (t.pending_admin ≡ none)
admin_changes auth c s t old new i h e k ne = by_call c ((outcome_iff auth c s t).0 e)
  where
    by_call :
        (c : Call)
        → Effect auth c s t
        → (c ≡ accept new)
          × (s.pending_admin ≡ some new)
          × (auth new ≡ true)
          × (t.pending_admin ≡ none)
    by_call (initialize_call a p) f = ground arith
    by_call (update_params a p) f = ground arith
    by_call (set_asset a b p) f = ground arith
    by_call (propose a b) f = ground arith
    by_call (accept a) f = ground arith
    by_call (cancel a) f = ground arith
