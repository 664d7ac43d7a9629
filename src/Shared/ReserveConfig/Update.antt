-- ===== src/Shared/ReserveConfig/Update.antt =====
-- The setters as updates of the settings that the words stand for.
use Prim.Native.Nat.{bit_and}
use k.Base.{
  ℕ, sym, ◌+◌, ◌*◌, ◌/◌, ◌%◌, ◌^◌, ◌<◌, ◌≡◌, refl, ap, ◌∙◌, Bool, arith, ltb, if◌then◌else◌, Result,
  ok, err, Bool-cases, inl, inr,
}
use k.Base.Bits.{bit_and_mask, set_low_field}
use k.Shared.Errors.{
  ConfigurationError, invalid_ltv, invalid_liquidation_threshold, invalid_liquidation_bonus,
}
use k.Shared.ReserveConfig.{
  ReserveConfiguration, set_ltv, set_liquidation_threshold, set_liquidation_bonus,
  set_reserve_factor, set_min_remaining_debt, set_active, set_frozen, set_borrowing_enabled,
  set_paused, set_flashloan_enabled, set_borrow_cap, set_supply_cap, get_borrow_cap, get_supply_cap,
}
use k.Shared.ReserveConfig.View.{
  Settings, view, view-settings_of, LowFields, low_fields, settings_of,
}
use k.Shared.ReserveConfig.Fields.{
  Same, Same-path, put, stored, flagged, flag_bit, flag_bit-lt, flag_bit_lem, put-ltv,
  put-liquidation_threshold, put-liquidation_bonus, put-active, put-frozen, put-borrowing_enabled,
  put-paused, put-flashloan_enabled, put-reserve_factor, put-min_remaining_debt,
}

-- A call of one setter.
pub data Setter : Type 0 where
  ltv liquidation_threshold liquidation_bonus reserve_factor min_remaining_debt : ℕ → Setter
  active frozen borrowing_enabled paused flashloan_enabled : Bool → Setter
  borrow_cap supply_cap : ℕ → Setter

pub call : Setter → ReserveConfiguration → Result ConfigurationError ReserveConfiguration
call (Setter.ltv v) c = set_ltv c v
call (Setter.liquidation_threshold v) c = set_liquidation_threshold c v
call (Setter.liquidation_bonus v) c = set_liquidation_bonus c v
call (Setter.reserve_factor v) c = ok (set_reserve_factor c v)
call (Setter.min_remaining_debt v) c = ok (set_min_remaining_debt c v)
call (Setter.active b) c = ok (set_active c b)
call (Setter.frozen b) c = ok (set_frozen c b)
call (Setter.borrowing_enabled b) c = ok (set_borrowing_enabled c b)
call (Setter.paused b) c = ok (set_paused c b)
call (Setter.flashloan_enabled b) c = ok (set_flashloan_enabled c b)
call (Setter.borrow_cap v) c = ok (set_borrow_cap c v)
call (Setter.supply_cap v) c = ok (set_supply_cap c v)

-- What it is to do: percentages above 100% are refused, other numbers are cut to their field.
abbrev pub specified : Setter → Settings → Result ConfigurationError Settings
specified (Setter.ltv v) s = if ltb 10000 v then err invalid_ltv else ok (record s { ltv = v })
specified (Setter.liquidation_threshold v) s =
    if ltb 10000 v
    then err invalid_liquidation_threshold
    else ok (record s { liquidation_threshold = v })
specified (Setter.liquidation_bonus v) s =
    if ltb 10000 v then err invalid_liquidation_bonus else ok (record s { liquidation_bonus = v })
specified (Setter.reserve_factor v) s = ok (record s { reserve_factor = v % 2 ^ 14 })
specified (Setter.min_remaining_debt v) s = ok (record s { min_remaining_debt = v % 2 ^ 32 })
specified (Setter.active b) s = ok (record s { active = b })
specified (Setter.frozen b) s = ok (record s { frozen = b })
specified (Setter.borrowing_enabled b) s = ok (record s { borrowing_enabled = b })
specified (Setter.paused b) s = ok (record s { paused = b })
specified (Setter.flashloan_enabled b) s = ok (record s { flashloan_enabled = b })
specified (Setter.borrow_cap v) s = ok (record s { borrow_cap = v % 2 ^ 64 })
specified (Setter.supply_cap v) s = ok (record s { supply_cap = v % 2 ^ 64 })

-- Both words are `u128` values.
pub record IsWord (c : ReserveConfiguration) : Type 0 where
  pub low_fits : c.data_low < 2 ^ 128
  pub high_fits : c.data_high < 2 ^ 128

-- What a call is to give: the settings asked for in words that fit, or the same error.
abbrev pub Refines :
    Result ConfigurationError ReserveConfiguration → Result ConfigurationError Settings → Type 0
Refines (ok c) (ok s) = (view c ≡ s) × IsWord c
Refines (err d) (err e) = d ≡ e
Refines _ _ = ⊥

put_at_zero : (w x v : ℕ) → x / 2 ^ w * 2 ^ w + v ≡ put 0 w x v
put_at_zero w x v = let whole : x / 1 ≡ x = omega arith in rw whole (omega arith)

-- A setter writes one field of one word.
module _ (c : ReserveConfiguration) (word : IsWord c) where
  abbrev low_to : LowFields → Settings
  low_to f = settings_of f c.data_high

  abbrev with_low : ℕ → ReserveConfiguration
  with_low x = record c { data_low = x }

  wrote :
      (x y : ℕ) (f : LowFields) (g : Settings → Settings)
      → x ≡ y
      → Same (low_fields y) f
      → low_to f ≡ g (low_to (low_fields c.data_low))
      → y < 2 ^ 128
      → (view (with_low x) ≡ g (view c)) × IsWord (with_low x)
  wrote x y f g e s same fits = (
    view-settings_of (with_low x)
        ∙ ap (λ z. low_to (low_fields z)) e
        ∙ ap low_to (Same-path (low_fields y) f s)
        ∙ same
        ∙ ap g (sym (view-settings_of c)),
    record { low_fits = rw e fits; high_fits = word.high_fits },
  )

  liquidation_threshold-Refines :
      (v : ℕ)
      → Refines
          (set_liquidation_threshold c v)
          (specified (Setter.liquidation_threshold v) (view c))
  unfolding set_liquidation_threshold
  liquidation_threshold-Refines v = elim (Bool-cases (ltb 10000 v)) [
    | inl large ↦ rw large refl
    | inr fine ↦
        let small : v % 2 ^ 14 ≡ v = ground arith in
        rw fine (
          wrote _ _ _ (λ s. record s { liquidation_threshold = v })
            (stored 14 114 14 c.data_low v (omega arith) (omega arith)
              ∙ ap (put 14 14 c.data_low) small)
            (put-liquidation_threshold c.data_low v (ground arith)) refl (ground arith))
  ]

  liquidation_bonus-Refines :
      (v : ℕ)
      → Refines (set_liquidation_bonus c v) (specified (Setter.liquidation_bonus v) (view c))
  unfolding set_liquidation_bonus
  liquidation_bonus-Refines v = elim (Bool-cases (ltb 10000 v)) [
    | inl large ↦ rw large refl
    | inr fine ↦
        let small : v % 2 ^ 14 ≡ v = ground arith in
        rw fine (
          wrote _ _ _ (λ s. record s { liquidation_bonus = v })
            (stored 28 100 14 c.data_low v (omega arith) (omega arith)
              ∙ ap (put 28 14 c.data_low) small)
            (put-liquidation_bonus c.data_low v (ground arith)) refl (ground arith))
  ]

  reserve_factor-Refines :
      (v : ℕ) → Refines (ok (set_reserve_factor c v)) (specified (Setter.reserve_factor v) (view c))
  unfolding set_reserve_factor
  reserve_factor-Refines v =
      wrote _ _ _ (λ s. record s { reserve_factor = v % 2 ^ 14 })
        (stored 57 71 14 c.data_low v (omega arith) (omega arith))
        (put-reserve_factor c.data_low (v % 2 ^ 14) (omega arith)) refl (omega arith)

  min_remaining_debt-Refines :
      (v : ℕ)
      → Refines (ok (set_min_remaining_debt c v)) (specified (Setter.min_remaining_debt v) (view c))
  unfolding set_min_remaining_debt
  min_remaining_debt-Refines v =
      wrote _ _ _ (λ s. record s { min_remaining_debt = v % 2 ^ 32 })
        (stored 71 57 32 c.data_low v (omega arith) (omega arith))
        (put-min_remaining_debt c.data_low (v % 2 ^ 32) (omega arith)) refl (omega arith)

  active-Refines :
      (on : Bool) → Refines (ok (set_active c on)) (specified (Setter.active on) (view c))
  unfolding set_active
  active-Refines on =
      let bit = flag_bit-lt on in
      wrote _ _ _ (λ s. record s { active = on })
        (flagged 50 78 c.data_low on (omega arith) (omega arith))
        (put-active c.data_low (flag_bit on) bit)
        (ap (λ b. record (low_to (low_fields c.data_low)) { active = b }) (flag_bit_lem on))
        (omega arith)

  frozen-Refines :
      (on : Bool) → Refines (ok (set_frozen c on)) (specified (Setter.frozen on) (view c))
  unfolding set_frozen
  frozen-Refines on =
      let bit = flag_bit-lt on in
      wrote _ _ _ (λ s. record s { frozen = on })
        (flagged 51 77 c.data_low on (omega arith) (omega arith))
        (put-frozen c.data_low (flag_bit on) bit)
        (ap (λ b. record (low_to (low_fields c.data_low)) { frozen = b }) (flag_bit_lem on))
        (omega arith)

  borrowing_enabled-Refines :
      (on : Bool)
      → Refines (ok (set_borrowing_enabled c on)) (specified (Setter.borrowing_enabled on) (view c))
  unfolding set_borrowing_enabled
  borrowing_enabled-Refines on =
      let bit = flag_bit-lt on in
      wrote _ _ _ (λ s. record s { borrowing_enabled = on })
        (flagged 52 76 c.data_low on (omega arith) (omega arith))
        (put-borrowing_enabled c.data_low (flag_bit on) bit)
        (ap (λ b. record (low_to (low_fields c.data_low)) { borrowing_enabled = b })
          (flag_bit_lem on))
        (omega arith)

  paused-Refines :
      (on : Bool) → Refines (ok (set_paused c on)) (specified (Setter.paused on) (view c))
  unfolding set_paused
  paused-Refines on =
      let bit = flag_bit-lt on in
      wrote _ _ _ (λ s. record s { paused = on })
        (flagged 53 75 c.data_low on (omega arith) (omega arith))
        (put-paused c.data_low (flag_bit on) bit)
        (ap (λ b. record (low_to (low_fields c.data_low)) { paused = b }) (flag_bit_lem on))
        (omega arith)

  flashloan_enabled-Refines :
      (on : Bool)
      → Refines (ok (set_flashloan_enabled c on)) (specified (Setter.flashloan_enabled on) (view c))
  unfolding set_flashloan_enabled
  flashloan_enabled-Refines on =
      let bit = flag_bit-lt on in
      wrote _ _ _ (λ s. record s { flashloan_enabled = on })
        (flagged 56 72 c.data_low on (omega arith) (omega arith))
        (put-flashloan_enabled c.data_low (flag_bit on) bit)
        (ap (λ b. record (low_to (low_fields c.data_low)) { flashloan_enabled = b })
          (flag_bit_lem on))
        (omega arith)

  ltv-Refines : (v : ℕ) → Refines (set_ltv c v) (specified (Setter.ltv v) (view c))
  unfolding set_ltv
  ltv-Refines v = elim (Bool-cases (ltb 10000 v)) [
    | inl large ↦ rw large refl
    | inr fine ↦
        let small : bit_and v 0x3fff ≡ v = bit_and_mask 14 v ∙ ground arith in
        rw (fine, small)
          (wrote _ _ _ (λ s. record s { ltv = v })
            (set_low_field 128 14 c.data_low v (omega arith) word.low_fits (ground arith)
              ∙ put_at_zero 14 c.data_low v)
            (put-ltv c.data_low v (ground arith)) refl (ground arith))
  ]

  abbrev with_high : ℕ → ReserveConfiguration
  with_high x = record c { data_high = x }

  -- The same for the caps, which share the high word.
  wrote_high :
      (x y a b : ℕ)
      → x ≡ y
      → y % 2 ^ 64 ≡ a
      → y / 2 ^ 64 % 2 ^ 64 ≡ b
      → y < 2 ^ 128
      → (view (with_high x) ≡ record (view c) { borrow_cap = a; supply_cap = b })
        × IsWord (with_high x)
  wrote_high x y a b e p q fits = (
    view-settings_of (with_high x)
        ∙ (λ i. record (low_to (low_fields c.data_low)) {
          borrow_cap = (ap (λ z. z % 2 ^ 64) e ∙ p) i;
          supply_cap = (ap (λ z. z / 2 ^ 64 % 2 ^ 64) e ∙ q) i;
        })
        ∙ ap {A = Settings} (λ s. record s { borrow_cap = a; supply_cap = b })
            (sym (view-settings_of c)),
    record { low_fits = word.low_fits; high_fits = rw e fits },
  )

  borrow_cap-Refines :
      (v : ℕ) → Refines (ok (set_borrow_cap c v)) (specified (Setter.borrow_cap v) (view c))
  unfolding set_borrow_cap get_supply_cap
  borrow_cap-Refines v =
      wrote_high _ (c.data_high / 2 ^ 64 * 2 ^ 64 + v % 2 ^ 64) (v % 2 ^ 64) (get_supply_cap c)
        (rw (bit_and_mask 64 v) (
          set_low_field 128 64 c.data_high (v % 2 ^ 64) (omega arith) word.high_fits (omega arith)))
        (omega arith) (rw (bit_and_mask 64 (c.data_high / 2 ^ 64)) (omega arith)) (ground arith)

  supply_cap-Refines :
      (v : ℕ) → Refines (ok (set_supply_cap c v)) (specified (Setter.supply_cap v) (view c))
  unfolding set_supply_cap get_borrow_cap
  supply_cap-Refines v =
      wrote_high _ (put 64 64 c.data_high (v % 2 ^ 64)) (get_borrow_cap c) (v % 2 ^ 64)
        (stored 64 64 64 c.data_high v (omega arith) (omega arith))
        (rw (bit_and_mask 64 c.data_high) (omega arith)) (omega arith) (omega arith)

  -- Every setter of the bit-packed configuration does to the settings that the getters read
  -- exactly what it is specified to do: it changes its own setting and none of the twelve others,
  -- it refuses a percentage above 100% with its own error, it cuts other numbers to their field,
  -- and the words, `u128` values before, stay so.
  pub call-Refines : (u : Setter) → Refines (call u c) (specified u (view c))
  unfolding call
  call-Refines (Setter.ltv v) = ltv-Refines v
  call-Refines (Setter.liquidation_threshold v) = liquidation_threshold-Refines v
  call-Refines (Setter.liquidation_bonus v) = liquidation_bonus-Refines v
  call-Refines (Setter.reserve_factor v) = reserve_factor-Refines v
  call-Refines (Setter.min_remaining_debt v) = min_remaining_debt-Refines v
  call-Refines (Setter.active on) = active-Refines on
  call-Refines (Setter.frozen on) = frozen-Refines on
  call-Refines (Setter.borrowing_enabled on) = borrowing_enabled-Refines on
  call-Refines (Setter.paused on) = paused-Refines on
  call-Refines (Setter.flashloan_enabled on) = flashloan_enabled-Refines on
  call-Refines (Setter.borrow_cap v) = borrow_cap-Refines v
  call-Refines (Setter.supply_cap v) = supply_cap-Refines v
