-- ===== src/Router/Admin.antt =====
-- The pool's set-up and its roles: `initialize`, the two-step transfers of the pool admin's and the
-- emergency admin's role (src/router.rs), the role checks of src/storage.rs, and src/emergency.rs.
pub mod Params
pub mod Upgrade
pub mod Governance
use k.Base.{
  ℕ, ◌==◌, ◌&&◌, if◌then◌else◌, Bool, true, false, not, Option, none, some, Result, ok, ok_or,
  fail_if, or_panic, ◌>>=◌, ◌>>◌,
}
use k.Shared.Errors.{
  KineticRouterError, unauthorized, already_initialized, no_pending_admin, invalid_pending_admin,
}
use k.Shared.Host.{Address, Auth, require_auth}
use k.Router.Accrual.{Outcome}
use k.Router.State.{Pool}
use k.Router.Access.{get_pool_admin}

unfoldable pub initialize :
    Auth → Address → Address → Address → Address → Address → Option Address → Pool → Outcome Pool
initialize auth pool_admin emergency_admin price_oracle treasury dex_router incentives p = do
  fail_if p.initialized already_initialized
  require_auth auth pool_admin
  ok (record p {
    admin = some pool_admin;
    pool_admin = some pool_admin;
    emergency_admin = some emergency_admin;
    price_oracle = some price_oracle;
    cached_oracle_config = none;
    treasury = some treasury;
    flash_loan_premium_max = 100;
    health_factor_liquidation_threshold = 1_000_000_000_000_000_000;
    min_swap_output_bps = 9800;
    partial_liquidation_hf_threshold = 500_000_000_000_000_000;
    dex_router = some dex_router;
    incentives_contract = elim incentives [ none ↦ p.incentives_contract | some c ↦ some c ];
    initialized = true;
  })

unfoldable pub validate_admin : Pool → Address → Outcome (Unit {0})
unfolding get_pool_admin
validate_admin p caller = do admin ← get_pool_admin p; fail_if (not (caller == admin)) unauthorized

-- The emergency admin or the pool admin.
unfoldable pub validate_emergency_admin : Pool → Address → Outcome (Unit {0})
unfolding get_pool_admin
validate_emergency_admin p caller = do
  pool_admin ← get_pool_admin p
  elim p.emergency_admin [
    | some emergency_admin ↦
        fail_if (not (caller == emergency_admin) && not (caller == pool_admin)) unauthorized
    | none ↦ fail_if (not (caller == pool_admin)) unauthorized
  ]

-- `KineticRouterError::NotInitialized as u32`
abbrev not_initialized_code : ℕ
not_initialized_code = 28

module _ (auth : Auth) (caller : Address) where
  unfoldable pub pause : Pool → Outcome Pool
  unfolding validate_emergency_admin
  pause p = do
    validate_emergency_admin p caller
    require_auth auth caller
    ok (record p { paused = true })

  unfoldable pub unpause : Pool → Outcome Pool
  unfolding validate_admin
  unpause p = do validate_admin p caller; require_auth auth caller; ok (record p { paused = false })

  -- The helpers take the pool and what the role's `set_pending` and `set_admin` make of it.
  unfoldable pub propose_role_admin : Pool → Pool → Outcome Pool
  unfolding validate_admin
  propose_role_admin p proposed = do validate_admin p caller; require_auth auth caller; ok proposed

  unfoldable pub accept_role_admin : Address → Pool → Outcome Pool
  accept_role_admin pending accepted = do
    fail_if (not (caller == pending)) invalid_pending_admin
    require_auth auth caller
    ok accepted

  unfoldable pub cancel_role_admin : Pool → Option Address → Pool → Outcome Pool
  unfolding validate_admin
  cancel_role_admin p pending cleared = do
    validate_admin p caller
    require_auth auth caller
    cancelled_pending ← ok_or pending no_pending_admin
    ok cleared

  unfoldable pub propose_pool_admin : Address → Pool → Outcome Pool
  unfolding propose_role_admin
  propose_pool_admin pending_admin p =
      propose_role_admin p (record p { pending_pool_admin = some pending_admin })

  unfoldable pub accept_pool_admin : Pool → Outcome Pool
  unfolding accept_role_admin get_pool_admin
  accept_pool_admin p = do
    pending ← ok_or p.pending_pool_admin no_pending_admin
    previous ← get_pool_admin p
    accept_role_admin pending (record p { pool_admin = some caller; pending_pool_admin = none })

  unfoldable pub cancel_pool_admin_proposal : Pool → Outcome Pool
  unfolding cancel_role_admin
  cancel_pool_admin_proposal p =
      cancel_role_admin p p.pending_pool_admin (record p { pending_pool_admin = none })

  unfoldable pub propose_emergency_admin : Address → Pool → Outcome Pool
  unfolding propose_role_admin
  propose_emergency_admin pending_admin p =
      propose_role_admin p (record p { pending_emergency_admin = some pending_admin })

  -- The previous holder, for the event; without one the pool admin, and without that a panic.
  abbrev pub previous_emergency_admin : Pool → Outcome Address
  previous_emergency_admin p = elim p.emergency_admin [
    | some previous ↦ ok previous
    | none ↦ or_panic (get_pool_admin p) not_initialized_code
  ]

  unfoldable pub accept_emergency_admin : Pool → Outcome Pool
  unfolding accept_role_admin get_pool_admin
  accept_emergency_admin p = do
    pending ← ok_or p.pending_emergency_admin no_pending_admin
    previous ← previous_emergency_admin p
    accept_role_admin pending
        (record p { emergency_admin = some caller; pending_emergency_admin = none })

  unfoldable pub cancel_emergency_admin_proposal : Pool → Outcome Pool
  unfolding cancel_role_admin
  cancel_emergency_admin_proposal p =
      cancel_role_admin p p.pending_emergency_admin (record p { pending_emergency_admin = none })
