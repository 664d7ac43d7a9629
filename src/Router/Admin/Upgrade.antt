-- ===== src/Router/Admin/Upgrade.antt =====
-- The upgrade admin's role (contracts/shared/src/upgradeable.rs, module `admin`, as src/router.rs
-- passes it on), and what `upgrade` of src/upgrade.rs does before the host replaces the code.
use k.Base.{◌==◌, not, none, some, Result, ok, err, panic, ok_or, fail_if, ◌>>=◌, ◌>>◌}
use k.Shared.Errors.{KineticRouterError, UpgradeError}
use k.Shared.Host.{Address, Auth, require_auth}
use k.Router.Accrual.{Outcome}
use k.Router.State.{Pool}
use k.Router.Access.{sync_access_control_flags}

abbrev pub UpgradeOutcome : Type 0 → Type 0
UpgradeOutcome A = Result UpgradeError A

unfoldable pub get_admin : Pool → UpgradeOutcome Address
get_admin p = ok_or p.admin UpgradeError.unauthorized

unfoldable pub get_pending_admin : Pool → UpgradeOutcome Address
get_pending_admin p = ok_or p.pending_admin UpgradeError.no_pending_admin

unfoldable pub require_admin : Pool → Address → UpgradeOutcome (Unit {0})
unfolding get_admin
require_admin p caller = do
  admin ← get_admin p
  fail_if (not (caller == admin)) UpgradeError.unauthorized

-- The errors as the pool reports them.
abbrev pub from_upgrade : {A : Type 0} → UpgradeOutcome A → Outcome A
from_upgrade (ok a) = ok a
from_upgrade (panic p) = panic p
from_upgrade (err UpgradeError.unauthorized) = err KineticRouterError.unauthorized
from_upgrade (err UpgradeError.invalid_wasm_hash) = err KineticRouterError.unauthorized
from_upgrade (err UpgradeError.no_pending_admin) = err KineticRouterError.no_pending_admin
from_upgrade (err UpgradeError.invalid_pending_admin) = err KineticRouterError.invalid_pending_admin

module _ (auth : Auth) (caller : Address) where
  unfoldable pub propose_admin : Address → Pool → UpgradeOutcome Pool
  unfolding require_admin
  propose_admin pending_admin p = do
    require_admin p caller
    require_auth auth caller
    ok (record p { pending_admin = some pending_admin })

  unfoldable pub accept_admin : Pool → UpgradeOutcome Pool
  unfolding get_pending_admin get_admin
  accept_admin p = do
    pending_admin ← get_pending_admin p
    fail_if (not (caller == pending_admin)) UpgradeError.invalid_pending_admin
    require_auth auth caller
    previous_admin ← get_admin p
    ok (record p { admin = some caller; pending_admin = none })

  unfoldable pub cancel_admin_proposal : Pool → UpgradeOutcome Pool
  unfolding require_admin get_pending_admin
  cancel_admin_proposal p = do
    require_admin p caller
    require_auth auth caller
    cancelled_pending ← get_pending_admin p
    ok (record p { pending_admin = none })

-- Where there is a pool admin, it has to sign as well.
abbrev pool_admin_signs : Auth → Pool → UpgradeOutcome (Unit {0})
pool_admin_signs auth p = elim p.pool_admin [ none ↦ ok tt | some a ↦ require_auth auth a ]

unfoldable pub upgrade : Auth → Pool → UpgradeOutcome Pool
unfolding get_admin sync_access_control_flags
upgrade auth p = do
  admin ← get_admin p
  require_auth auth admin
  pool_admin_signs auth p
  ok (sync_access_control_flags p)
