-- ===== src/Tests/Words.antt =====
-- The bit-packed configurations at concrete words.
use k.Base.{◌+◌, ◌*◌, ◌^◌, ◌≡◌, refl, arith, true, false, if◌then◌else◌, ◌==◌, [], ◌∷◌}
use k.Shared.ReserveConfig.{ReserveConfiguration}
use k.Shared.ReserveConfig.View.{view}
use k.Shared.ReserveConfig.Update.{Setter, call, specified, IsWord, Refines, call-Refines}
use k.Shared.UserConfig.{
  UserConfiguration, is_using_as_collateral, is_borrowing, set_using_as_collateral, set_borrowing,
  count_active_reserves, get_active_reserve_ids, ids_loop,
}
use k.Shared.UserConfig.Flags.{set_using_as_collateral-reads, set_borrowing-reads}
use k.Shared.UserConfig.Scan.{active_from, length, scan_lem}

-- 75%, 80%, a bonus of 5%, 7 decimals; caps of 1000 and 2000.
abbrev config : ReserveConfiguration
config = record {
  data_low = 7500 + 8000 * 2 ^ 14 + 500 * 2 ^ 28 + 7 * 2 ^ 42 + 5 * 2 ^ 50;
  data_high = 1000 + 2000 * 2 ^ 64;
}

config-IsWord : IsWord config
config-IsWord = record { low_fits = omega arith; high_fits = omega arith }

call-Refines_example :
    Refines
      (call (Setter.borrow_cap 4_000_000_000) config)
      (specified (Setter.borrow_cap 4_000_000_000) (view config))
call-Refines_example = call-Refines config config-IsWord (Setter.borrow_cap 4_000_000_000)

-- Reserve 0 is collateral, reserve 2 is borrowed.
abbrev user : UserConfiguration
user = record { bits = 33 }

ids_run : get_active_reserve_ids user ≡ 0 ∷ 2 ∷ []
unfolding get_active_reserve_ids ids_loop
ids_run = refl

scan_lem_example :
    (get_active_reserve_ids user ≡ active_from user 64 0)
    × (count_active_reserves user ≡ length (active_from user 64 0))
scan_lem_example = scan_lem user

set_using_as_collateral-reads_example :
    (is_using_as_collateral (set_using_as_collateral user 63 true) 63
      ≡ (if 63 == 63 then true else is_using_as_collateral user 63))
    × (is_borrowing (set_using_as_collateral user 63 true) 63 ≡ is_borrowing user 63)
set_using_as_collateral-reads_example =
    set_using_as_collateral-reads user 63 63 true (omega arith) (omega arith)

set_borrowing-reads_example :
    (is_borrowing (set_borrowing user 2 false) 2 ≡ (if 2 == 2 then false else is_borrowing user 2))
    × (is_using_as_collateral (set_borrowing user 2 false) 2 ≡ is_using_as_collateral user 2)
set_borrowing-reads_example = set_borrowing-reads user 2 2 false (omega arith) (omega arith)
