-- ===== src/Staking/Custody/Messages.antt =====
-- The books of `Custody` under every message.
use dexter_core.Prelude.{
  ℕ, ◌+◌, ◌≡◌, ◌==◌, nat_eq, Bool, true, false, some, [], ◌∷◌, ◌++◌, arith, ok, >>=-eq-ok, guard,
  contains, String, if◌then◌else◌,
}
use dexter_core.Chain.{
  Addr, Response, Env, MessageInfo, bank_send, cw20_transfer, cw20_transfer_from,
}
use dexter_core.Chain.Decimal.{Decimal}
use dexter_core.Asset.{Asset}
use dexter_core.Ownership.{addr_validate}
use dexter_core.Staking.State.{
  Storage, lift_std, unauthorized, cw20_token_not_allowed, next_reward_schedule_id,
}
use dexter_core.Staking.Rewards.{withdraw_pending_reward}
use dexter_core.Staking.Rewards.Frame.{update_all-Kept}
use dexter_core.Staking.Bond.{bond, withdraw, bonded_of, global_of}
use dexter_core.Staking.Schedules.{create_reward_schedule, claim_unallocated_reward}
use dexter_core.Staking.Admin
use dexter_core.Staking.Admin.{only_owner}
use dexter_core.Staking.Execute.{
  ExecuteMsg, Cw20HookMsg, Cw20ReceiveMsg, hook_bond, hook_create_reward_schedule, malformed,
  receive, create_schedule, bond_tokens, unbond_tokens, instant_unbond_tokens, unlock_tokens,
  instant_unlock_tokens, withdraw_rewards, claim_unallocated, execute, receive_cw20, receive_hook,
  sent_coin, address_or,
}
use dexter_core.Staking.Custody.{bonded_total, locked_total, owed, outflow, pulled}
use dexter_core.Staking.Custody.Pulls.{asked_for, execute-pulled}
use dexter_core.Staking.Custody.Bonds.{bond-owed, unbond-owed, instant_unbond-owed}
use dexter_core.Staking.Custody.Unlocks.{unlock-owed, instant_unlock-owed}

abbrev pub hook_inflow : Addr → MessageInfo → ℕ → Cw20HookMsg → ℕ
hook_inflow l info amount (hook_bond beneficiary_user) = if info.sender == l then amount else 0
hook_inflow l info amount other = 0

-- The tokens of `l` that a cw20 contract has sent along with the message, to be bonded.
abbrev pub received : Addr → MessageInfo → ExecuteMsg → ℕ
received l info (receive m) = hook_inflow l info m.amount m.msg
received l info other = 0

-- The tokens of `l` that come in with a message: what was sent along, and what its response pulls.
abbrev pub inflow : Addr → Env → MessageInfo → ExecuteMsg → Response → ℕ
inflow l env info msg r = received l info msg + pulled l env.contract_address r

-- Does the message pay out rewards, and none of the tokens held for users?
abbrev pub pays_rewards : ExecuteMsg → Bool
pays_rewards (withdraw_rewards lp_token) = true
pays_rewards (claim_unallocated id) = true
pays_rewards other = false

outflow-append : (l : Addr) (a b : Response) → outflow l (a ++ b) ≡ outflow l a + outflow l b
outflow-append l [] b = omega arith
outflow-append l (bank_send to denom amount ∷ a) b = outflow-append l a b
outflow-append l (cw20_transfer tok recipient amount ∷ a) b = omega (arith, outflow-append l a b)
outflow-append l (cw20_transfer_from tok owner recipient amount ∷ a) b = outflow-append l a b

module _ ⦃d : Decimal⦄ (l : Addr) (s : Storage) (env : Env) (info : MessageInfo) (t : Storage)
    (r : Response) where
  create_reward_schedule-owed :
      (lp_token : Addr) (title : String) (start end : ℕ) (creator : Addr) (asset : Asset)
      → create_reward_schedule s env lp_token title start end creator asset ≡ ok (t, r)
      → (owed l t ≡ owed l s) × (outflow l r ≡ 0)
  unfolding create_reward_schedule bonded_total locked_total next_reward_schedule_id
  create_reward_schedule-owed lp_token title start end creator asset e = ground arith

  hook-owed :
      (m : Cw20ReceiveMsg) (hook : Cw20HookMsg)
      → receive_hook s env info m hook ≡ ok (t, r)
      → owed l t + outflow l r ≡ owed l s + hook_inflow l info m.amount hook
  unfolding receive_hook
  hook-owed m (hook_bond beneficiary_user) e =
      let (sender, _, e1) = >>=-eq-ok (lift_std (addr_validate env m.sender)) _ e in
      let (user, _, e2) = >>=-eq-ok (address_or env beneficiary_user sender) _ e1 in
      let (books, silent) = bond-owed l s env user info.sender m.amount t r e2 in omega arith
  hook-owed m (hook_create_reward_schedule lp_token title creator start end) e =
      let (sender, _, e1) = >>=-eq-ok (lift_std (addr_validate env m.sender)) _ e in
      let (_, _, e2) = >>=-eq-ok (guard (sender == s.config.owner) unauthorized) _ e1 in
      let (_, _, e3) =
        >>=-eq-ok
          (guard (contains s.config.allowed_reward_cw20_tokens info.sender) cw20_token_not_allowed)
          _ e2 in
      let (who, _, e4) = >>=-eq-ok (address_or env creator sender) _ e3 in
      let (books, silent) = create_reward_schedule-owed lp_token title start end who _ e4 in
      omega arith
  hook-owed m malformed e = cc

  execute-books :
      (msg : ExecuteMsg)
      → execute s env info msg ≡ ok (t, r)
      → owed l t + (if pays_rewards msg then 0 else outflow l r)
        ≡ owed l s + (received l info msg + asked_for l msg)
  unfolding execute receive_cw20 withdraw claim_unallocated_reward Admin.update_config
      Admin.set_custom_unbond_config Admin.unset_custom_unbond_config Admin.allow_lp_token
      Admin.remove_lp_token Admin.allow_reward_cw20_token Admin.remove_reward_cw20_token
      Admin.propose_owner Admin.drop_proposal Admin.claim_owner bonded_total locked_total
  execute-books (bond_tokens lp_token amount) e =
      let (p, bonded, e1) = >>=-eq-ok (bond s env info.sender lp_token amount) _ e in
      let pull = cw20_transfer_from lp_token info.sender env.contract_address amount ∷ [] in
      ground (
        arith,
        e1,
        bond-owed l s env info.sender lp_token amount p.0 p.1 bonded,
        outflow-append l p.1 pull,
      )
  execute-books (receive m) e = omega (arith, hook-owed m m.msg e)
  execute-books (unbond_tokens lp_token amount) e =
      let (books, silent) = unbond-owed l s env info lp_token t r amount e in omega arith
  execute-books (instant_unbond_tokens lp_token amount) e =
      omega (arith, instant_unbond-owed l s env info lp_token t r amount e)
  execute-books (unlock_tokens lp_token) e = omega (arith, unlock-owed l s env info lp_token t r e)
  execute-books (instant_unlock_tokens lp_token locks) e =
      omega (arith, instant_unlock-owed l s env info lp_token t r locks e)
  execute-books (withdraw_rewards lp_token) e = ground (
    arith,
    update_all-Kept lp_token info.sender (global_of s lp_token).total_bond_amount
        (bonded_of s lp_token info.sender) env.block_time (some withdraw_pending_reward)
        (global_of s lp_token).active_reward_assets (s, []),
  )
  execute-books (create_schedule lp_token title creator start end) e =
      let (_, _, e1) = >>=-eq-ok (only_owner s info) _ e in
      let (coin, _, e2) = >>=-eq-ok (sent_coin info.funds) _ e1 in
      let (who, _, e3) = >>=-eq-ok (address_or env creator info.sender) _ e2 in
      let (books, silent) = create_reward_schedule-owed lp_token title start end who _ e3 in
      omega arith
  execute-books (claim_unallocated id) e = ground arith
  execute-books _ e = ground arith

  -- Of an LP token `l`, every message that succeeds changes what the contract owes its users by exactly
  -- what comes in, sent along with the message to be bonded or pulled in by the response's `TransferFrom`s to
  -- the contract, less what the response sends away. Where the message pays out rewards, nothing that is
  -- owed changes and nothing is pulled in.
  pub execute-owed :
      (msg : ExecuteMsg)
      → execute s env info msg ≡ ok (t, r)
      → owed l t + (if pays_rewards msg then 0 else outflow l r)
        ≡ owed l s + inflow l env info msg r
  execute-owed msg e = omega (arith, execute-books msg e, execute-pulled l s env info t r msg e)
