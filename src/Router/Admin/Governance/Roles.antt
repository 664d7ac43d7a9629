-- ===== src/Router/Admin/Governance/Roles.antt =====
-- Who may make the calls of `Call`, how they change the pool admin, and the bounds that every history
-- of them keeps.
use k.Base.{
  ◌≡◌, refl, arith, true, false, some, ok, err, panic, List, [], ◌∷◌, inl, inr, ◌⊎◌, Option-cases,
  >>-ok_elim, >>=-ok_elim, ok_or,
}
use k.Shared.Errors.{no_pending_admin}
use k.Shared.Host.{Address, Auth}
use k.Router.Accrual.{Outcome}
use k.Router.State.{Pool, blank_pool}
use k.Router.Access.{get_pool_admin}
use k.Router.Admin.{
  previous_emergency_admin, initialize, validate_admin, validate_emergency_admin, pause, unpause,
  propose_role_admin, accept_role_admin, cancel_role_admin, propose_pool_admin, accept_pool_admin,
  cancel_pool_admin_proposal, propose_emergency_admin, accept_emergency_admin,
  cancel_emergency_admin_proposal,
}
use k.Router.Admin.Governance.{
  Call, initialize_call, pause_call, unpause_call, propose_pool, propose_emergency, accept_pool,
  accept_emergency, cancel_pool, cancel_emergency, set_param, set_staleness_of, set_target,
  set_list, outcome, kept, run,
}
use k.Router.Admin.Governance.Setters.{
  IsBounded, set_param-Governed, set_target-Governed, set_list-Governed, set_staleness-Governed,
}

-- The addresses whose signature a call needs.
abbrev pub MayCall : Call → Pool → Address → Type 0
MayCall (initialize_call admin emergency oracle treasury router incentives) p a =
    (p.initialized ≡ false) × (a ≡ admin)
MayCall (pause_call caller) p a = (p.pool_admin ≡ some a) ⊎ (p.emergency_admin ≡ some a)
MayCall (accept_pool caller) p a = p.pending_pool_admin ≡ some a
MayCall (accept_emergency caller) p a = p.pending_emergency_admin ≡ some a
MayCall c p a = p.pool_admin ≡ some a

-- After a call of `Call` the pool admin is who it was before, and so is the mark of a pool that is
-- set up; or the pending pool admin has signed and holds the role, with the mark as it was; or the
-- holder has signed for the set-up, which found the pool not set up and leaves it set up.
pub pool_admin_changes :
    (auth : Auth) (c : Call) (p p' : Pool)
    → outcome auth c p ≡ ok p'
    → ((p'.pool_admin ≡ p.pool_admin) × (p'.initialized ≡ p.initialized))
      ⊎ ((a : Address) × (auth a ≡ true)
          × (p'.pool_admin ≡ some a)
          × (((p.pending_pool_admin ≡ some a) × (p'.initialized ≡ p.initialized))
              ⊎ ((p.initialized ≡ false) × (p'.initialized ≡ true))))
unfolding outcome initialize pause unpause propose_pool_admin accept_pool_admin
    cancel_pool_admin_proposal propose_emergency_admin accept_emergency_admin
    cancel_emergency_admin_proposal propose_role_admin accept_role_admin cancel_role_admin
pool_admin_changes auth (initialize_call admin emergency oracle treasury router incentives) p p' h =
    inr (admin, ground arith, ground arith, inr (ground arith, ground arith))
pool_admin_changes auth (pause_call caller) p p' h =
    >>-ok_elim (validate_emergency_admin p caller) _ h
      λ allowed rest. inl (ground arith, ground arith)
pool_admin_changes auth (unpause_call caller) p p' h =
    >>-ok_elim (validate_admin p caller) _ h λ allowed rest. inl (ground arith, ground arith)
pool_admin_changes auth (propose_pool caller next) p p' h =
    >>-ok_elim (validate_admin p caller) _ h λ allowed rest. inl (ground arith, ground arith)
pool_admin_changes auth (propose_emergency caller next) p p' h =
    >>-ok_elim (validate_admin p caller) _ h λ allowed rest. inl (ground arith, ground arith)
pool_admin_changes auth (cancel_pool caller) p p' h =
    >>-ok_elim (validate_admin p caller) _ h λ allowed rest. inl (ground arith, ground arith)
pool_admin_changes auth (cancel_emergency caller) p p' h =
    >>-ok_elim (validate_admin p caller) _ h λ allowed rest. inl (ground arith, ground arith)
pool_admin_changes auth (accept_pool caller) p p' h = elim (Option-cases p.pending_pool_admin) [
  | inl unset ↦ absurd (ground arith)
  | inr (a, set) ↦
      >>=-ok_elim (get_pool_admin p) _ (rw set at h)
        λ previous e rest. inr (a, ground arith, ground arith, inl (set, ground arith))
]
pool_admin_changes auth (accept_emergency caller) p p' h =
    >>=-ok_elim (ok_or p.pending_emergency_admin no_pending_admin) _ h λ pending e rest.
      >>=-ok_elim (previous_emergency_admin auth caller p) _ rest
        λ previous f rest. inl (ground arith, ground arith)
pool_admin_changes auth (set_param param n) p p' h =
    let (_, same, mark, _) = set_param-Governed auth param n p p' h in inl (same, mark)
pool_admin_changes auth (set_staleness_of asset n) p p' h =
    let (_, same, mark, _) = set_staleness-Governed auth asset n p p' h in inl (same, mark)
pool_admin_changes auth (set_target target a) p p' h =
    let (_, same, mark, _) = set_target-Governed auth target a p p' h in inl (same, mark)
pool_admin_changes auth (set_list list l) p p' h =
    let (_, same, mark, _) = set_list-Governed auth list l p p' h in inl (same, mark)

outcome-IsBounded :
    (asset : Address) (auth : Auth) (c : Call) (p p' : Pool)
    → outcome auth c p ≡ ok p'
    → IsBounded asset p
    → IsBounded asset p'
unfolding outcome initialize pause unpause propose_pool_admin accept_pool_admin
    cancel_pool_admin_proposal propose_emergency_admin accept_emergency_admin
    cancel_emergency_admin_proposal propose_role_admin accept_role_admin cancel_role_admin
outcome-IsBounded asset auth (initialize_call admin emergency oracle treasury router incentives) p
      p' h b =
    ground arith
outcome-IsBounded asset auth (pause_call caller) p p' h b =
    >>-ok_elim (validate_emergency_admin p caller) _ h λ allowed rest. ground arith
outcome-IsBounded asset auth (unpause_call caller) p p' h b =
    >>-ok_elim (validate_admin p caller) _ h λ allowed rest. ground arith
outcome-IsBounded asset auth (propose_pool caller next) p p' h b =
    >>-ok_elim (validate_admin p caller) _ h λ allowed rest. ground arith
outcome-IsBounded asset auth (propose_emergency caller next) p p' h b =
    >>-ok_elim (validate_admin p caller) _ h λ allowed rest. ground arith
outcome-IsBounded asset auth (cancel_pool caller) p p' h b =
    >>-ok_elim (validate_admin p caller) _ h λ allowed rest. ground arith
outcome-IsBounded asset auth (cancel_emergency caller) p p' h b =
    >>-ok_elim (validate_admin p caller) _ h λ allowed rest. ground arith
outcome-IsBounded asset auth (accept_pool caller) p p' h b =
    >>=-ok_elim (ok_or p.pending_pool_admin no_pending_admin) _ h
      λ pending e rest. >>=-ok_elim (get_pool_admin p) _ rest λ previous f rest. ground arith
outcome-IsBounded asset auth (accept_emergency caller) p p' h b =
    >>=-ok_elim (ok_or p.pending_emergency_admin no_pending_admin) _ h λ pending e rest.
      >>=-ok_elim (previous_emergency_admin auth caller p) _ rest λ previous f rest. ground arith
outcome-IsBounded asset auth (set_param param n) p p' h b =
    (set_param-Governed auth param n p p' h).3 asset b
outcome-IsBounded asset auth (set_staleness_of other n) p p' h b =
    (set_staleness-Governed auth other n p p' h).3 asset b
outcome-IsBounded asset auth (set_target target a) p p' h b =
    (set_target-Governed auth target a p p' h).3 asset b
outcome-IsBounded asset auth (set_list list l) p p' h b =
    (set_list-Governed auth list l p p' h).3 asset b

kept-IsBounded :
    (asset : Address) (auth : Auth) (c : Call) (p : Pool) (o : Outcome Pool)
    → outcome auth c p ≡ o
    → IsBounded asset p
    → IsBounded asset (kept p o)
kept-IsBounded asset auth c p (ok p') e b = outcome-IsBounded asset auth c p p' e b
kept-IsBounded asset auth c p (err x) e b = b
kept-IsBounded asset auth c p (panic x) e b = b

from-IsBounded :
    (asset : Address) (p : Pool) (cs : List (Auth × Call))
    → IsBounded asset p
    → IsBounded asset (run p cs)
unfolding run
from-IsBounded asset p [] b = b
from-IsBounded asset p ((auth, c) ∷ cs) b =
    from-IsBounded asset (kept p (outcome auth c p)) cs (kept-IsBounded asset auth c p _ refl b)

-- After any history of the calls of `Call` on fresh storage, failing ones included: the liquidation
-- threshold lies between 0.5 and 1.2, the partial one above 0 and below 1, the swap floor between 90
-- and 100 percent, the age of a price, the asset's own included where one is set, between a minute
-- and a day, the price tolerance is at most 50 and the largest premium at most 100 percent, and so
-- is the sum of the two flash premiums.
pub run-IsBounded :
    (asset : Address) (cs : List (Auth × Call)) → IsBounded asset (run blank_pool cs)
run-IsBounded asset cs = from-IsBounded asset blank_pool cs (ground arith)
