-- ===== src/Staking/Admin.antt =====
-- Configuration of contracts/multi_staking/src/contract.rs: `instantiate`, the owner's messages and the
-- handover of the ownership.
use dexter_core.Prelude.{
  ℕ, Option, none, some, [], ◌∷◌, ◌++◌, contains, length, filter, ◌==◌, not, Result, ok, err, panic,
  guard, ◌>>=◌, ◌>>◌, nat_eq,
}
use dexter_core.Prelude.Dict.{insert, erase}
use dexter_core.Chain.{Addr, Response, Env, MessageInfo}
use dexter_core.Ownership.{
  addr_validate, propose_new_owner, drop_ownership_proposal, claim_ownership,
}
use dexter_core.Staking.State.{
  Storage, Config, UnbondConfig, UnbondConfigValidationError, ContractError, lift_std, unauthorized,
  invalid_unbond_config, cant_allow_any_more_lp_tokens, lp_token_already_allowed,
  cw20_token_already_allowed, max_allowed_lp_tokens,
}
use dexter_core.Staking.Fees.{validate}

-- `unbond_config.validate()?`
abbrev pub lift_validation :
    {A : Type 0} → Result UnbondConfigValidationError A → Result ContractError A
lift_validation (ok a) = ok a
lift_validation (err e) = err (invalid_unbond_config e)
lift_validation panic = panic

abbrev pub with_config : Storage → Config → Storage
with_config s config = record s { config = config }

unfoldable pub instantiate :
    Env → (owner keeper_addr : Addr) → UnbondConfig → Result ContractError Storage
unfolding addr_validate
instantiate env owner keeper_addr unbond_config = do
  keeper ← lift_std (addr_validate env keeper_addr)
  lift_validation (validate unbond_config)
  owner' ← lift_std (addr_validate env owner)
  ok (record {
    config = record {
      owner = owner';
      keeper = keeper_addr;
      allowed_lp_tokens = [];
      allowed_reward_cw20_tokens = [];
      unbond_config = unbond_config;
    };
    lp_override_config = [];
    ownership_proposal = none;
    reward_schedule_id_count = none;
    asset_staker_info = [];
    lp_token_asset_reward_schedule = [];
    reward_schedules = [];
    creator_claimable_reward = [];
    user_lp_token_locks = [];
    user_bonded_lp_tokens = [];
    asset_lp_reward_state = [];
    lp_global_state = [];
  })

-- `if info.sender != config.owner { return Err(Unauthorized) }`
abbrev pub only_owner : Storage → MessageInfo → Result ContractError Unit
only_owner s info = guard (info.sender == s.config.owner) unauthorized

abbrev set_keeper : Env → Option Addr → Config → Result ContractError Config
set_keeper env none config = ok config
set_keeper env (some keeper) config = do
  keeper' ← lift_std (addr_validate env keeper)
  ok (record config { keeper = keeper })

abbrev set_unbond_config : Option UnbondConfig → Config → Result ContractError Config
set_unbond_config none config = ok config
set_unbond_config (some c) config = do
  lift_validation (validate c)
  ok (record config { unbond_config = c })

unfoldable pub update_config :
    Storage
    → Env
    → MessageInfo
    → Option Addr
    → Option UnbondConfig
    → Result ContractError (Storage × Response)
unfolding addr_validate
update_config s env info keeper_addr unbond_config = do
  only_owner s info
  config ← set_keeper env keeper_addr s.config
  config' ← set_unbond_config unbond_config config
  ok (with_config s config', [])

unfoldable pub set_custom_unbond_config :
    Storage → MessageInfo → Addr → UnbondConfig → Result ContractError (Storage × Response)
set_custom_unbond_config s info lp_token c = do
  only_owner s info
  lift_validation (validate c)
  ok (record s { lp_override_config = insert lp_token c s.lp_override_config }, [])

unfoldable pub unset_custom_unbond_config :
    Storage → MessageInfo → Addr → Result ContractError (Storage × Response)
unset_custom_unbond_config s info lp_token = do
  only_owner s info
  ok (record s { lp_override_config = erase lp_token s.lp_override_config }, [])

unfoldable pub allow_lp_token :
    Storage → Env → MessageInfo → Addr → Result ContractError (Storage × Response)
unfolding addr_validate
allow_lp_token s env info lp_token = do
  only_owner s info
  let config = s.config
  guard (not (length config.allowed_lp_tokens == max_allowed_lp_tokens))
      cant_allow_any_more_lp_tokens
  lp_token' ← lift_std (addr_validate env lp_token)
  guard (not (contains config.allowed_lp_tokens lp_token')) lp_token_already_allowed
  ok (
    with_config s
        (record config { allowed_lp_tokens = config.allowed_lp_tokens ++ lp_token' ∷ [] }),
    [],
  )

unfoldable pub remove_lp_token :
    Storage → MessageInfo → Addr → Result ContractError (Storage × Response)
remove_lp_token s info lp_token = do
  only_owner s info
  let config = s.config
  ok (
    with_config s (record config {
      allowed_lp_tokens = filter (λ x. not (x == lp_token)) config.allowed_lp_tokens;
    }),
    [],
  )

unfoldable pub allow_reward_cw20_token :
    Storage → Env → MessageInfo → Addr → Result ContractError (Storage × Response)
unfolding addr_validate
allow_reward_cw20_token s env info addr = do
  only_owner s info
  let config = s.config
  guard (not (contains config.allowed_reward_cw20_tokens addr)) cw20_token_already_allowed
  addr' ← lift_std (addr_validate env addr)
  ok (
    with_config s (record config {
      allowed_reward_cw20_tokens = config.allowed_reward_cw20_tokens ++ addr' ∷ [];
    }),
    [],
  )

unfoldable pub remove_reward_cw20_token :
    Storage → MessageInfo → Addr → Result ContractError (Storage × Response)
remove_reward_cw20_token s info addr = do
  only_owner s info
  let config = s.config
  ok (
    with_config s (record config {
      allowed_reward_cw20_tokens = filter (λ x. not (x == addr)) config.allowed_reward_cw20_tokens;
    }),
    [],
  )

unfoldable pub propose_owner :
    Storage → Env → MessageInfo → Addr → ℕ → Result ContractError (Storage × Response)
unfolding propose_new_owner
propose_owner s env info owner expires_in = do
  proposal ← lift_std (propose_new_owner env info owner expires_in s.config.owner)
  ok (record s { ownership_proposal = some proposal }, [])

unfoldable pub drop_proposal : Storage → MessageInfo → Result ContractError (Storage × Response)
unfolding drop_ownership_proposal
drop_proposal s info = do
  proposal ← lift_std (drop_ownership_proposal info s.config.owner)
  ok (record s { ownership_proposal = proposal }, [])

unfoldable pub claim_owner : Storage → Env → MessageInfo → Result ContractError (Storage × Response)
unfolding claim_ownership
claim_owner s env info = do
  (proposal, owner) ← lift_std (claim_ownership env info s.ownership_proposal)
  let config = s.config
  ok (record s { ownership_proposal = proposal; config = record config { owner = owner } }, [])
