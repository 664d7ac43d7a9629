-- ===== src/Shared/UserConfig/Scan.antt =====
-- What the loops over the bitmap find: exactly the reserves with one of their flags set.
use Prim.Native.Nat.{bit_and}
use native.Mathlib.Nat.{div-div-eq-div-mul, pow-suc}
use k.Base.{
  ℕ, zero, suc, ◌+◌, ◌*◌, ◌/◌, ◌^◌, ◌<◌, ◌≤◌, ◌≡◌, refl, sym, ◌∙◌, ◌==◌, if◌then◌else◌, Bool, not,
  ◌||◌, arith, List, [], ◌∷◌, Bool-cases, inl, inr,
}
use k.Base.Bits.{bit_and_mask, digit_lem}
use k.Shared.UserConfig.{
  UserConfiguration, is_using_as_collateral, is_borrowing, count_loop, count_active_reserves,
  ids_loop, get_active_reserve_ids,
}
use k.Shared.UserConfig.Flags.{is_using_as_collateral_lem, is_borrowing_lem}

abbrev pub length : List ℕ → ℕ
length [] = 0
length (x ∷ xs) = suc (length xs)

module _ (c : UserConfiguration) where
  -- Reserve `i` is collateral or borrowed.
  abbrev pub is_active_reserve : ℕ → Bool
  is_active_reserve i = is_using_as_collateral c i || is_borrowing c i

  -- The active ones among the `n` reserves from `i` on, in order.
  abbrev pub active_from : ℕ → ℕ → List ℕ
  active_from zero i = []
  active_from (suc n) i =
      let rest = active_from n (i + 1) in if is_active_reserve i then i ∷ rest else rest

  -- What the loop has left of the bitmap when it reaches reserve `i`.
  abbrev word : ℕ → ℕ
  word i = c.bits / 2 ^ (i * 2)

  pow_next : (i : ℕ) → 2 ^ ((i + 1) * 2) ≡ 2 ^ (i * 2) * 4
  pow_next i =
      let next : (i + 1) * 2 ≡ suc (suc (i * 2)) = omega arith in
      rw next (omega (arith, pow-suc 2 (suc (i * 2)), pow-suc 2 (i * 2)))

  word_next : (i : ℕ) → word i / 4 ≡ word (i + 1)
  word_next i = rw (pow_next i) (div-div-eq-div-mul c.bits (2 ^ (i * 2)) 4)

  odd_shift : (i : ℕ) → c.bits / 2 ^ (i * 2 + 1) ≡ word i / 2
  odd_shift i =
      let up : 2 ^ (i * 2 + 1) ≡ 2 ^ (i * 2) * 2 =
        let next : i * 2 + 1 ≡ suc (i * 2) = omega arith in rw next (pow-suc 2 (i * 2)) in
      rw up (sym (div-div-eq-div-mul c.bits (2 ^ (i * 2)) 2))

  -- The loops' test of two bits is the test of the two flags.
  test_lem : (i : ℕ) → i < 64 → (bit_and (word i) 3 == 0) ≡ not (is_active_reserve i)
  test_lem i h = ground (
    arith,
    bit_and_mask 2 (word i),
    digit_lem (i * 2) c.bits,
    digit_lem (i * 2 + 1) c.bits,
    odd_shift i,
    is_using_as_collateral_lem c i,
    is_borrowing_lem c i,
  )

  -- Past the highest bit nothing is active.
  active_from_empty : (n i : ℕ) → i + n ≤ 64 → word i ≡ 0 → active_from n i ≡ []
  active_from_empty zero i h e = refl
  active_from_empty (suc n) i h e = ground (
    arith,
    test_lem i (omega arith),
    bit_and_mask 2 (word i),
    active_from_empty n (i + 1) (omega arith) (omega (arith, word_next i)),
  )

  ids_loop_lem : (n i : ℕ) → i + n ≤ 64 → ids_loop n i (word i) ≡ active_from n i
  unfolding ids_loop
  ids_loop_lem zero i h = refl
  ids_loop_lem (suc n) i h = rw (word_next i) (
      ground (
        arith,
        test_lem i (omega arith),
        ids_loop_lem n (i + 1) (omega arith),
        active_from_empty n (i + 1) (omega arith),
      ))

  count_loop_lem :
      (n i count : ℕ) → i + n ≤ 64 → count_loop n (word i) count ≡ count + length (active_from n i)
  unfolding count_loop
  count_loop_lem zero i count h = omega arith
  count_loop_lem (suc n) i count h = elim (Bool-cases (bit_and (word i) 3 == 0)) [
    | inl none_set ↦
        rw (word_next i, none_set)
          (ground (
            arith,
            test_lem i (omega arith),
            count_loop_lem n (i + 1) count (omega arith),
            active_from_empty n (i + 1) (omega arith),
          ))
    | inr some_set ↦
        rw (word_next i, some_set)
          (ground (
            arith,
            test_lem i (omega arith),
            count_loop_lem n (i + 1) (count + 1) (omega arith),
            active_from_empty n (i + 1) (omega arith),
          ))
  ]

  -- The list of active reserves holds exactly the reserves below 64 with a flag set, in order and
  -- once each, and the count is its length: the early exit from either loop misses none.
  pub scan_lem :
      (get_active_reserve_ids c ≡ active_from 64 0)
      × (count_active_reserves c ≡ length (active_from 64 0))
  unfolding get_active_reserve_ids count_active_reserves
  scan_lem =
      let whole : c.bits / 1 ≡ c.bits = omega arith in
      (
        rw whole at (ids_loop_lem 64 0 (omega arith)),
        rw whole at (count_loop_lem 64 0 0 (omega arith)) ∙ omega arith,
      )
