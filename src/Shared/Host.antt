-- ===== src/Shared/Host.antt =====
-- What the contracts take from the host: addresses, and the authorisations of a call. An address
-- is only compared, so it is a number. `auth a` says that `a` has authorised the invocation.
use k.Base.{ℕ, Bool, Result, ok, panic, host, if◌then◌else◌}

abbrev pub Address : Type 0
Address = ℕ

abbrev pub Auth : Type 0
Auth = Address → Bool

-- `address.require_auth()` traps where the address has not signed.
abbrev pub require_auth : {E : Type 0} → Auth → Address → Result E (Unit {0})
require_auth auth a = if auth a then ok tt else panic host
