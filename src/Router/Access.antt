-- ===== src/Router/Access.antt =====
-- Access lists: `is_address_whitelisted_for_reserve` and its relatives in src/storage.rs,
-- `sync_access_control_flags`, the setters of src/access_control.rs, and the checks of
-- src/validation.rs.
pub mod Lookup
use k.Base.{
  ℕ, zero, suc, ◌≡◌, ◌↔◌, ◌⊎◌, inl, inr, arith, ◌==◌, ==_iff, if◌then◌else◌, Bool, true, false, not,
  Option, none, some, List, [], ◌∷◌, ok, ok_or, fail_if, ◌>>=◌, ◌>>◌, Bool-cases,
}
use k.Shared.Constants.{max_reserves}
use k.Shared.Errors.{address_not_whitelisted, unauthorized, not_initialized}
use k.Shared.Host.{Address, Auth, require_auth}
use k.Router.Accrual.{Outcome}
use k.Router.State.{Pool, AccessList}

abbrev pub is_empty : List Address → Bool
is_empty [] = true
is_empty (a ∷ l) = false

-- The loop of every lookup: the first `rounds` members are compared.
unfoldable pub contains : ℕ → List Address → Address → Bool
contains zero l address = false
contains (suc rounds) [] address = false
contains (suc rounds) (a ∷ l) address =
    let rest = contains rounds l address in if a == address then true else rest

-- `is_address_whitelisted_for_reserve` and `is_address_whitelisted_for_liquidation`
unfoldable pub is_whitelisted : AccessList → Address → Bool
unfolding contains
is_whitelisted l address =
    if not l.flagged
    then true
    else if is_empty l.members
    then true
    else contains max_reserves l.members address

-- `is_address_blacklisted_for_reserve` and `is_address_blacklisted_for_liquidation`
unfoldable pub is_blacklisted : AccessList → Address → Bool
unfolding contains
is_blacklisted l address =
    if not l.flagged
    then false
    else if is_empty l.members
    then false
    else contains max_reserves l.members address

-- The same lookup for swap handlers, where no list means that none is allowed.
unfoldable pub is_swap_handler_whitelisted : Pool → Address → Bool
unfolding is_blacklisted
is_swap_handler_whitelisted p handler = is_blacklisted p.swap_handler_whitelist handler

-- Every setter of a list writes its flag with it.
unfoldable pub access_list : List Address → AccessList
access_list l = record { flagged = not (is_empty l); members = l }

unfoldable pub validate_reserve_whitelist_access : Pool → Address → Address → Outcome (Unit {0})
unfolding is_whitelisted
validate_reserve_whitelist_access p asset caller =
    fail_if (not (is_whitelisted (p.reserve_whitelist asset) caller)) address_not_whitelisted

unfoldable pub validate_reserve_blacklist_access : Pool → Address → Address → Outcome (Unit {0})
unfolding is_blacklisted
validate_reserve_blacklist_access p asset caller =
    fail_if (is_blacklisted (p.reserve_blacklist asset) caller) unauthorized

unfoldable pub validate_liquidation_whitelist_access : Pool → Address → Outcome (Unit {0})
unfolding is_whitelisted
validate_liquidation_whitelist_access p caller =
    fail_if (not (is_whitelisted p.liquidation_whitelist caller)) address_not_whitelisted

unfoldable pub validate_liquidation_blacklist_access : Pool → Address → Outcome (Unit {0})
unfolding is_blacklisted
validate_liquidation_blacklist_access p caller =
    fail_if (is_blacklisted p.liquidation_blacklist caller) unauthorized

unfoldable pub get_pool_admin : Pool → Outcome Address
get_pool_admin p = ok_or p.pool_admin not_initialized

abbrev at_asset : (Address → AccessList) → Address → List Address → Address → AccessList
at_asset table asset l a = if a == asset then access_list l else table a

module _ (auth : Auth) where
  -- `let admin = storage::get_pool_admin(&env)?; admin.require_auth();`
  unfoldable pub require_pool_admin : Pool → Outcome (Unit {0})
  unfolding get_pool_admin
  require_pool_admin p = do admin ← get_pool_admin p; require_auth auth admin

  unfoldable pub set_reserve_whitelist : Address → List Address → Pool → Outcome Pool
  unfolding require_pool_admin access_list
  set_reserve_whitelist asset whitelist p = do
    require_pool_admin p
    ok (record p { reserve_whitelist = at_asset p.reserve_whitelist asset whitelist })

  unfoldable pub set_reserve_blacklist : Address → List Address → Pool → Outcome Pool
  unfolding require_pool_admin access_list
  set_reserve_blacklist asset blacklist p = do
    require_pool_admin p
    ok (record p { reserve_blacklist = at_asset p.reserve_blacklist asset blacklist })

  unfoldable pub set_liquidation_whitelist : List Address → Pool → Outcome Pool
  unfolding require_pool_admin access_list
  set_liquidation_whitelist whitelist p = do
    require_pool_admin p
    ok (record p { liquidation_whitelist = access_list whitelist })

  unfoldable pub set_liquidation_blacklist : List Address → Pool → Outcome Pool
  unfolding require_pool_admin access_list
  set_liquidation_blacklist blacklist p = do
    require_pool_admin p
    ok (record p { liquidation_blacklist = access_list blacklist })

  unfoldable pub set_swap_handler_whitelist : List Address → Pool → Outcome Pool
  unfolding require_pool_admin access_list
  set_swap_handler_whitelist whitelist p = do
    require_pool_admin p
    ok (record p { swap_handler_whitelist = access_list whitelist })

-- The flags written again from the lists; a reserve that is not listed loses its flags.
unfoldable pub reflagged : List Address → (Address → AccessList) → Address → AccessList
reflagged [] table a = record (table a) { flagged = false }
reflagged (asset ∷ assets) table a =
    let rest = reflagged assets table a in
    if a == asset then record (table a) { flagged = not (is_empty (table a).members) } else rest

unfoldable pub sync_access_control_flags : Pool → Pool
unfolding reflagged access_list
sync_access_control_flags p = record p {
  liquidation_whitelist = access_list p.liquidation_whitelist.members;
  liquidation_blacklist = access_list p.liquidation_blacklist.members;
  swap_handler_whitelist = access_list p.swap_handler_whitelist.members;
  reserve_whitelist = reflagged p.reserves_list p.reserve_whitelist;
  reserve_blacklist = reflagged p.reserves_list p.reserve_blacklist;
}
