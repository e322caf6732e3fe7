-- ===== src/Machine.antt =====
-- Panics as values, and the checked machine arithmetic of the contract: the release profile of
-- Cargo.toml has `overflow-checks = true`, so an operation out of range panics.
use staking_farm.Prelude.{
  ℕ, ◌+◌, ◌-◌, ◌*◌, ◌/◌, ◌^◌, ◌≤◌, ◌<◌, ◌≡◌, refl, Bool, Option, none, some, ltb, leb, ◌==◌,
  if◌then◌else◌, arith,
}

-- The reasons for which a call panics: the messages of the asserts, and the arithmetic checks. The
-- last two are those of the unit tests.
pub data Panic : Type 0 where
  arithmetic_overflow division_by_zero : Panic
  already_initialized invalid_owner_id pool_already_staking : Panic
  zero_denominator fee_above_one : Panic
  withdraw_not_positive not_enough_unstaked unstaked_locked : Panic
  stake_not_positive shares_not_positive charge_not_positive not_enough_to_stake : Panic
  unstake_not_positive no_staked_balance not_enough_staked receive_not_positive : Panic
  total_balance_decreased zero_total_staked zero_total_shares : Panic
  must_have_owner must_have_factory must_have_version internal_fail : Panic
  err_farm_too_early err_farm_date err_farm_amount_non_zero err_farm_amount_too_small : Panic
  err_farm_invalid_token_id err_farm_has_started err_no_farm err_zero_amount err_no_account : Panic
  err_not_authorized_token err_not_authorized_user err_msg_wrong_format : Panic
  err_msg_required_field err_too_many_active_farms : Panic
  must_be_owner must_be_factory must_be_owner_to_set_owner must_be_self : Panic
  already_paused not_paused burn_fee_not_decreased : Panic
  private_method requires_one_yocto get_owner_failed get_owner_unparsed not_an_owner : Panic
  only_as_callback one_promise_result method_not_payable index_out_of_bounds : Panic
  fetch_code_failed wrong_state_version : Panic
  invalid_whitelist_id not_enough_deposit pool_id_with_dot invalid_pool_id unparsable_pool_id :
      Panic
  hash_not_allowed pool_already_exists contract_does_not_exist err_already_exists : Panic
  storage_not_covered unparsed_arguments : Panic
  price_guarantee_violated assertion_failed : Panic

pub data Result {ℓ} (Output : Type ℓ) : Type ℓ where
  err : Panic → Result Output
  ok : Output → Result Output

-- `assert!(condition, message)`
abbrev pub assert : Bool → Panic → Result (Unit {0})
assert condition message = if condition then ok tt else err message

-- `option.expect(message)`
abbrev pub expect {ℓ} : {Output : Type ℓ} → Option Output → Panic → Result Output
expect none message = err message
expect (some value) message = ok value

infixl 5 ◌>>=◌ ◌>>◌
abbrev pub ◌>>=◌ {ℓ κ} :
    {Output : Type ℓ} {Next : Type κ} → Result Output → (Output → Result Next) → Result Next
err panic >>= rest = err panic
ok value >>= rest = rest value

abbrev pub ◌>>◌ {ℓ} : {Next : Type ℓ} → Result (Unit {0}) → Result Next → Result Next
check >> rest = check >>= λ _. rest

-- The rest of a block whose first step succeeded.
pub bind_ok {ℓ κ μ} :
    {A : Type ℓ} {B : Type κ} {G : Type μ} (m : Result A) (f : A → Result B) {b : B}
    → (m >>= f) ≡ ok b
    → ((a : A) → m ≡ ok a → f a ≡ ok b → G)
    → G
bind_ok (ok a) f h k = k a refl h
bind_ok (err e) f h k = cc

pub ok_injective : {A : Type 0} {a b : A} → ok a ≡ ok b → a ≡ b
ok_injective h = ground arith

abbrev pub u32_bound : ℕ
u32_bound = 2 ^ 32

abbrev pub u64_bound : ℕ
u64_bound = 2 ^ 64

abbrev pub u128_bound : ℕ
u128_bound = 2 ^ 128

abbrev pub u256_bound : ℕ
u256_bound = 2 ^ 256

-- A result that must fit its type.
unfoldable pub fit : ℕ → ℕ → Result ℕ
fit bound n = if ltb n bound then ok n else err arithmetic_overflow

unfoldable pub add_u64 : ℕ → ℕ → Result ℕ
unfolding fit
add_u64 a b = fit u64_bound (a + b)

unfoldable pub add_u128 : ℕ → ℕ → Result ℕ
unfolding fit
add_u128 a b = fit u128_bound (a + b)

unfoldable pub mul_u64 : ℕ → ℕ → Result ℕ
unfolding fit
mul_u64 a b = fit u64_bound (a * b)

unfoldable pub mul_u128 : ℕ → ℕ → Result ℕ
unfolding fit
mul_u128 a b = fit u128_bound (a * b)

unfoldable pub add_u256 : ℕ → ℕ → Result ℕ
unfolding fit
add_u256 a b = fit u256_bound (a + b)

unfoldable pub mul_u256 : ℕ → ℕ → Result ℕ
unfolding fit
mul_u256 a b = fit u256_bound (a * b)

-- `U256::as_u128` panics on a larger value.
unfoldable pub as_u128 : ℕ → Result ℕ
unfolding fit
as_u128 n = fit u128_bound n

-- An unsigned difference, of any width.
unfoldable pub sub : ℕ → ℕ → Result ℕ
sub a b = if leb b a then ok (a - b) else err arithmetic_overflow

-- An unsigned quotient, of any width.
unfoldable pub div : ℕ → ℕ → Result ℕ
div a b = if b == 0 then err division_by_zero else ok (a / b)

pub sub_ok : (a b : ℕ) → b ≤ a → sub a b ≡ ok (a - b)
unfolding sub
sub_ok a b h = ground arith

pub mul_u128_ok : (a b : ℕ) → a * b < u128_bound → mul_u128 a b ≡ ok (a * b)
unfolding mul_u128
mul_u128_ok a b h = ground arith
