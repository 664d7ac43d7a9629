-- ===== src/Shared/UserConfig.antt =====
-- The user's reserve bitmap (`impl UserConfiguration` in contracts/shared/src/utils.rs): bit 2i says that reserve i is collateral, bit 2i + 1 that it is borrowed.
pub mod Flags
pub mod Scan
use Prim.Native.Nat.{bit_and, bit_or}
use k.Base.{
  ℕ, zero, suc, ◌+◌, ◌-◌, ◌*◌, ◌/◌, ◌^◌, ◌==◌, leb, if◌then◌else◌, Bool, true, false, not, List, [],
  ◌∷◌,
}
use k.Shared.Constants.{u128_max}

pub record UserConfiguration : Type 0 where
  pub bits : ℕ

module _ (c : UserConfiguration) where
  unfoldable pub is_using_as_collateral : ℕ → Bool
  is_using_as_collateral reserve_index =
      let shift : ℕ = reserve_index * 2 in
      if leb 64 reserve_index then false else bit_and (c.bits / 2 ^ shift) 1 == 1

  unfoldable pub is_borrowing : ℕ → Bool
  is_borrowing reserve_index =
      let shift : ℕ = reserve_index * 2 + 1 in
      if leb 64 reserve_index then false else bit_and (c.bits / 2 ^ shift) 1 == 1

  unfoldable pub set_using_as_collateral : ℕ → Bool → UserConfiguration
  set_using_as_collateral reserve_index using =
      let mask : ℕ = 2 ^ (reserve_index * 2) in
      if leb 64 reserve_index then c else record c {
        bits = if using then bit_or c.bits mask else bit_and c.bits (u128_max - mask);
      }

  unfoldable pub set_borrowing : ℕ → Bool → UserConfiguration
  set_borrowing reserve_index borrowing =
      let mask : ℕ = 2 ^ (reserve_index * 2 + 1) in
      if leb 64 reserve_index then c else record c {
        bits = if borrowing then bit_or c.bits mask else bit_and c.bits (u128_max - mask);
      }

  unfoldable pub is_empty : Bool
  is_empty = c.bits == 0

  unfoldable pub has_any_borrowing : Bool
  has_any_borrowing = not (bit_and c.bits 0xaaaa_aaaa_aaaa_aaaa_aaaa_aaaa_aaaa_aaaa == 0)

-- The loop of `count_active_reserves`: `rounds` iterations are left.
unfoldable pub count_loop : ℕ → ℕ → ℕ → ℕ
count_loop zero word count = count
count_loop (suc rounds) word count =
    let count' : ℕ = if bit_and word 3 == 0 then count else count + 1 in
    let rest = count_loop rounds (word / 4) count' in if word / 4 == 0 then count' else rest

unfoldable pub count_active_reserves : UserConfiguration → ℕ
unfolding count_loop
count_active_reserves c = count_loop 64 c.bits 0

-- The loop of `get_active_reserve_ids`: `reserve_id` is the loop's variable. What the source
-- pushes at the back stands in order.
unfoldable pub ids_loop : ℕ → ℕ → ℕ → List ℕ
ids_loop zero reserve_id word = []
ids_loop (suc rounds) reserve_id word =
    let later = ids_loop rounds (reserve_id + 1) (word / 4) in
    let rest = if word / 4 == 0 then [] else later in
    if bit_and word 3 == 0 then rest else reserve_id ∷ rest

unfoldable pub get_active_reserve_ids : UserConfiguration → List ℕ
unfolding ids_loop
get_active_reserve_ids c = ids_loop 64 0 c.bits
