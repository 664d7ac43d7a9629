-- ===== src/Router/Operations/Transfer.antt =====
-- What a transfer of deposit units asks of the pool (`validate_and_finalize_transfer` of
-- src/router.rs).
use k.Base.{
  ℕ, ◌<◌, ◌≡◌, ◌∙◌, sym, refl, arith, ◌==◌, if◌then◌else◌, Bool, true, false, ok, ok_injective,
  ◌>>=◌, ◌>>◌, >>=-ok_elim, >>-ok_elim, inl, inr, ◌⊎◌, Bool-cases,
}
use k.Shared.Host.{Address, require_auth}
use k.Shared.Signed.{safe_reserve_id}
use k.Shared.UserConfig.{
  UserConfiguration, is_using_as_collateral, set_using_as_collateral, has_any_borrowing,
}
use k.Shared.UserConfig.Flags.{set_using_as_collateral-reads}
use k.Router.Accrual.{ReserveData, Outcome, get_reserve_data, update_state_without_store}
use k.Router.State.{Pool, World, Env, get_user_configuration, set_user_configuration}
use k.Router.Operations.{in_pool, check_positions}
use k.Router.Operations.Withdraw.{check_health}
use k.Router.Operations.Positions.{reserve_id_lem}

-- A sender with nothing left has no collateral there any more.
unfoldable pub release : Address → UserConfiguration → ℕ → ℕ → Pool → Pool
release from c reserve_id balance_after p =
    if balance_after == 0
    then set_user_configuration p from (set_using_as_collateral c reserve_id false)
    else p

abbrev begin_position : Address → ℕ → Pool → Outcome Pool
begin_position to reserve_id p = do
  let c = get_user_configuration p to
  check_positions c
  ok (set_user_configuration p to (set_using_as_collateral c reserve_id true))

-- A receiver with something has collateral there from now on, if there is room for a position.
unfoldable pub engage : Address → ℕ → ℕ → Pool → Outcome Pool
engage to reserve_id balance_after p =
    if balance_after == 0
    then ok p
    else if is_using_as_collateral (get_user_configuration p to) reserve_id
    then ok p
    else begin_position to reserve_id p

module _ {U : Type 0} (env : Env U) where
  abbrev check_updated : Address → Address → ℕ → ReserveData → World U → Outcome (World U)
  check_updated from asset amount r w = do
    updated ← update_state_without_store env.now r
    check_health env from asset amount updated w

  -- A sender with debt has to stay healthy.
  unfoldable pub check_sender : Address → Address → ℕ → ReserveData → World U → Outcome (World U)
  check_sender from asset amount r w =
      if has_any_borrowing (get_user_configuration w.pool from)
      then check_updated from asset amount r w
      else ok w

  unfoldable pub validate_and_finalize_transfer :
      Address → Address → Address → ℕ → ℕ → ℕ → World U → Outcome (World U)
  validate_and_finalize_transfer asset from to amount from_balance_after to_balance_after w = do
    r ← get_reserve_data w.pool.reserves asset
    reserve_id ← safe_reserve_id r.id
    require_auth env.auth r.a_token_address
    let from_config = get_user_configuration w.pool from
    w1 ← check_sender from asset amount r w
    p ←
        engage to reserve_id to_balance_after
          (release from from_config reserve_id from_balance_after w1.pool)
    ok (in_pool w1 p)

written_flag :
    (c : UserConfiguration) (i : ℕ) (on : Bool)
    → i < 64
    → is_using_as_collateral (set_using_as_collateral c i on) i ≡ on
written_flag c i on small =
    let itself : (if i == i then on else is_using_as_collateral c i) ≡ on = ground arith in
    (set_using_as_collateral-reads c i i on small small).0 ∙ itself

release_lem :
    (from : Address) (c : UserConfiguration) (i balance_after : ℕ) (p : Pool)
    → i < 64
    → (0 < balance_after)
      ⊎ (is_using_as_collateral ((release from c i balance_after p).user_configuration from) i
          ≡ false)
unfolding release set_user_configuration
release_lem from c i balance_after p small = elim (Bool-cases (balance_after == 0)) [
  | inl gone ↦ let flag = written_flag c i false small in inr (ground (arith, flag))
  | inr left ↦ inl (ground arith)
]

engage_lem :
    (to : Address) (i balance_after : ℕ) (p p' : Pool)
    → i < 64
    → engage to i balance_after p ≡ ok p'
    → (balance_after ≡ 0) ⊎ (is_using_as_collateral (p'.user_configuration to) i ≡ true)
unfolding engage set_user_configuration
engage_lem to i balance_after p p' small h = elim (Bool-cases (balance_after == 0)) [
  | inl gone ↦ inl (ground arith)
  | inr left ↦
      let c : UserConfiguration = get_user_configuration p to in
      let rest = rw left at h in
      elim (Bool-cases (is_using_as_collateral c i)) [
        | inl already ↦ inr (ground arith)
        | inr fresh ↦ >>-ok_elim (check_positions c) _ (rw fresh at rest) λ room rest.
            let flag = written_flag c i true small in
            let config : p'.user_configuration to ≡ set_using_as_collateral c i true =
              ground arith in
            inr (rw config flag)
      ]
]

engage_elsewhere :
    (to from : Address) (i balance_after : ℕ) (p p' : Pool)
    → (from == to) ≡ false
    → engage to i balance_after p ≡ ok p'
    → p'.user_configuration from ≡ p.user_configuration from
unfolding engage set_user_configuration
engage_elsewhere to from i balance_after p p' other h = ground arith

-- What the pool has done once it lets a transfer pass.
abbrev pub Finalizes :
    {U : Type 0} → Env U → Address → Address → Address → ℕ → ℕ → World U → World U → Type 0
Finalizes env asset from to from_after to_after w w' =
    (r : ReserveData) × (get_reserve_data w.pool.reserves asset ≡ ok r)
    × (env.auth r.a_token_address ≡ true)
    × ((0 < from_after) ⊎ (is_using_as_collateral (w'.pool.user_configuration from) r.id ≡ false))
    × ((to_after ≡ 0) ⊎ (is_using_as_collateral (w'.pool.user_configuration to) r.id ≡ true))

finalized :
    {U : Type 0} (env : Env U) (asset from to : Address) (from_after to_after : ℕ)
    (w w' w1 : World U) (c : UserConfiguration) (r : ReserveData) (i : ℕ) (p : Pool)
    → (from == to) ≡ false
    → get_reserve_data w.pool.reserves asset ≡ ok r
    → env.auth r.a_token_address ≡ true
    → r.id < 64
    → i ≡ r.id
    → engage to i to_after (release from c i from_after w1.pool) ≡ ok p
    → in_pool w1 p ≡ w'
    → Finalizes env asset from to from_after to_after w w'
finalized env asset from to from_after to_after w w' w1 c r i p other found signed small same h
      world =
    let small' : i < 64 = omega (arith, small, same) in
    let released : Pool = release from c i from_after w1.pool in
    let gone = release_lem from c i from_after w1.pool small' in
    let there = engage_lem to i to_after released p small' h in
    let kept = engage_elsewhere to from i to_after released p other h in
    (r, found, signed, rw (sym world, sym same, kept) gone, rw (sym world, sym same) there)

-- A transfer between two different accounts that the pool lets pass was sent by the reserve's deposit
-- token. Afterwards the sender's collateral flag is cleared if nothing is left to the sender, and
-- the receiver's is set if the receiver has something.
pub transfer-Finalizes :
    {U : Type 0} (env : Env U) (asset from to : Address) (amount from_after to_after : ℕ)
    (w w' : World U)
    → (from == to) ≡ false
    → validate_and_finalize_transfer env asset from to amount from_after to_after w ≡ ok w'
    → Finalizes env asset from to from_after to_after w w'
unfolding validate_and_finalize_transfer
transfer-Finalizes env asset from to amount from_after to_after w w' other h =
    >>=-ok_elim (get_reserve_data w.pool.reserves asset) _ h λ r found rest.
      >>=-ok_elim (safe_reserve_id r.id) _ rest λ i e rest.
        let (same, small) = reserve_id_lem r.id i e in
        let c = get_user_configuration w.pool from in
        >>-ok_elim (require_auth env.auth r.a_token_address) _ rest λ signed rest.
          >>=-ok_elim (check_sender env from asset amount r w) _ rest λ w1 healthy rest.
            let released : Pool = release from c i from_after w1.pool in
            >>=-ok_elim (engage to i to_after released) _ rest λ p engaged rest.
              let world : in_pool w1 p ≡ w' = ok_injective _ (in_pool w1 p) w' refl rest in
              finalized env asset from to from_after to_after w w' w1 c r i p other found
                (ground arith) small same engaged world
