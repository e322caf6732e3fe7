-- ===== src/RewardFee/Delay.antt =====
-- When a change of the reward fee takes effect.
use staking_farm.Prelude.{ℕ, ◌+◌, ◌≤◌, ◌<◌, ◌≡◌, arith}
use staking_farm.Machine.{ok}
use staking_farm.Ratio.{Ratio}
use staking_farm.RewardFee.{num_epochs_to_unlock, UpdatableRewardFee, current, next, set}

-- A change of the reward fee is announced at once, but for four epochs the fee is what it was, and
-- from then on the new one.
pub set_takes_effect_later :
    (epoch soon later : ℕ) (f f' : UpdatableRewardFee) (r : Ratio)
    → set epoch f r ≡ ok f'
    → epoch ≤ soon
    → soon < epoch + num_epochs_to_unlock
    → epoch + num_epochs_to_unlock ≤ later
    → (current soon f' ≡ current epoch f) × (current later f' ≡ r) × (next f' ≡ r)
unfolding set current next
set_takes_effect_later epoch soon later f f' r h not_before still after =
    (ground arith, ground arith, ground arith)
