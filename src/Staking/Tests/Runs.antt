-- ===== src/Staking/Tests/Runs.antt =====
-- A run of the contract: it is created, an LP token is allowed, and a user bonds and unbonds.
use dexter_core.Prelude.{ℕ, ◌≡◌, refl, true, none, some, [], ◌∷◌, ok}
use dexter_core.Chain.{Addr, Env, MessageInfo, Response, cw20_transfer, cw20_transfer_from}
use dexter_core.Chain.Words.{add_u64, add_u128, checked_sub}
use dexter_core.Chain.Decimal.{exact}
use dexter_core.Prelude.Dict.{lookup, insert}
use dexter_core.Ownership.{addr_validate}
use dexter_core.Staking.State.{Storage, UnbondConfig, enabled, TokenLock}
use dexter_core.Staking.Fees.{validate}
use dexter_core.Staking.Rewards.{update_all}
use dexter_core.Staking.Bond.{bond, check_if_lp_token_allowed}
use dexter_core.Staking.Unbond.{unbond}
use dexter_core.Staking.Unlock.{unlock, add_amounts}
use dexter_core.Staking.Admin
use dexter_core.Staking.Admin.{instantiate}
use dexter_core.Staking.Execute
use dexter_core.Staking.Execute.{ExecuteMsg, execute, bond_tokens, unbond_tokens, unlock_tokens}

abbrev pub at : ℕ → Env
at time = record { block_time = time; contract_address = 1; is_valid_addr = λ x. true }

abbrev pub from : Addr → MessageInfo
from sender = record { sender = sender; funds = [] }

abbrev pub owner : Addr
owner = 2

abbrev pub keeper : Addr
keeper = 3

abbrev pub alice : Addr
alice = 10

abbrev pub bob : Addr
bob = 11

abbrev pub lp : Addr
lp = 7

abbrev pub unbond_config : UnbondConfig
unbond_config = record { unlock_period = 100; instant_unbond_config = enabled 200 500 10 }

abbrev pub new_contract : Storage
new_contract = record {
  config = record {
    owner = owner;
    keeper = keeper;
    allowed_lp_tokens = [];
    allowed_reward_cw20_tokens = [];
    unbond_config = unbond_config;
  };
  lp_override_config = [];
  ownership_proposal = none;
  reward_schedule_id_count = none;
  asset_staker_info = [];
  lp_token_asset_reward_schedule = [];
  reward_schedules = [];
  creator_claimable_reward = [];
  user_lp_token_locks = [];
  user_bonded_lp_tokens = [];
  asset_lp_reward_state = [];
  lp_global_state = [];
}

abbrev pub with_lp : Storage
with_lp =
    Admin.with_config new_contract (record (new_contract.config) { allowed_lp_tokens = lp ∷ [] })

abbrev bonded_state : ℕ → Storage
bonded_state amount = record with_lp {
  user_bonded_lp_tokens = ((lp, alice), amount) ∷ [];
  lp_global_state = (lp, record { total_bond_amount = amount; active_reward_assets = [] }) ∷ [];
}

abbrev pub with_bond : Storage
with_bond = bonded_state 100

abbrev pub lock : ℕ → ℕ → TokenLock
lock unlock_time amount = record { unlock_time = unlock_time; amount = amount }

abbrev pub with_lock : Storage
with_lock = record (bonded_state 60) { user_lp_token_locks = ((lp, alice), lock 1200 40 ∷ []) ∷ [] }

abbrev pub unlocked : Storage
unlocked = record (bonded_state 60) { user_lp_token_locks = ((lp, alice), []) ∷ [] }

abbrev pub pull : Response
pull = cw20_transfer_from lp alice 1 100 ∷ []

abbrev pub pay : Response
pay = cw20_transfer lp alice 40 ∷ []

pub created_run : instantiate (at 1000) owner keeper unbond_config ≡ ok new_contract
unfolding instantiate addr_validate validate
created_run = refl

pub allow_run :
    execute ⦃d = exact⦄ new_contract (at 1000) (from owner) (Execute.allow_lp_token lp)
    ≡ ok (with_lp, [])
unfolding execute Admin.allow_lp_token addr_validate
allow_run = refl

pub bond_run :
    execute ⦃d = exact⦄ with_lp (at 1000) (from alice) (bond_tokens lp 100) ≡ ok (with_bond, pull)
unfolding execute bond check_if_lp_token_allowed update_all lookup insert add_u128
bond_run = refl

pub unbond_run :
    unbond ⦃d = exact⦄ with_bond (at 1100) (from alice) lp (some 40) ≡ ok (with_lock, [])
unfolding unbond update_all lookup insert add_u64 checked_sub
unbond_run = refl

pub unlock_run : unlock with_lock (at 1200) (from alice) lp ≡ ok (unlocked, pay)
unfolding unlock lookup insert add_amounts add_u128
unlock_run = refl
