-- ===== src/Staking/Custody/Pulls.antt =====
-- The tokens that the responses of contracts/multi_staking pull in, by `TransferFrom` to the contract.
use mathlib.Core.Path.{subst}
use dexter_core.Prelude.{
  ℕ, ◌+◌, ◌≡◌, ◌==◌, ltb, nat_eq, pair_eq, Option, none, some, List, [], ◌∷◌, ◌++◌, arith, ok,
  >>=-eq-ok, guard, contains, String, if◌then◌else◌, Ensures, Ensures-bind, Ensures-of_eq, or_err,
  not, refl,
}
use dexter_core.Chain.{
  Addr, Response, Env, MessageInfo, bank_send, cw20_transfer, cw20_transfer_from, not_found,
}
use dexter_core.Prelude.Dict.{lookup}
use dexter_core.Chain.Decimal.{Decimal}
use dexter_core.Asset.{Asset, AssetInfo, token, native_token, build_transfer_token_to_user_msg}
use dexter_core.Ownership.{addr_validate}
use dexter_core.Staking.State.{
  Storage, TokenLock, AssetStakerInfo, ContractError, std, reward_schedule_is_active,
  unallocated_reward_already_claimed, lift_std, unauthorized, cw20_token_not_allowed,
  next_reward_schedule_id,
}
use dexter_core.Staking.Rewards.{
  withdraw_pending_reward, accrue, update_staking_rewards, update_all,
}
use dexter_core.Staking.Rewards.Frame.{update_all-Kept}
use dexter_core.Staking.Bond.{bond, withdraw, bonded_of, global_of}
use dexter_core.Staking.Unbond.{unbond, instant_unbond}
use dexter_core.Staking.Unlock.{unlock, instant_unlock}
use dexter_core.Staking.Schedules.{
  create_reward_schedule, claimable_of, compute_creator_claimable_reward, claim_unallocated_reward,
}
use dexter_core.Staking.Admin
use dexter_core.Staking.Admin.{only_owner}
use dexter_core.Staking.Execute.{
  ExecuteMsg, Cw20HookMsg, Cw20ReceiveMsg, hook_bond, hook_create_reward_schedule, malformed,
  receive, create_schedule, bond_tokens, unbond_tokens, instant_unbond_tokens, unlock_tokens,
  instant_unlock_tokens, withdraw_rewards, claim_unallocated, execute, receive_cw20, receive_hook,
  sent_coin, address_or,
}
use dexter_core.Staking.Custody.{pulled}

pulled-append :
    (l vault : Addr) (a b : Response)
    → pulled l vault (a ++ b) ≡ pulled l vault a + pulled l vault b
pulled-append l vault [] b = omega arith
pulled-append l vault (bank_send to denom amount ∷ a) b = pulled-append l vault a b
pulled-append l vault (cw20_transfer tok recipient amount ∷ a) b = pulled-append l vault a b
pulled-append l vault (cw20_transfer_from tok owner recipient amount ∷ a) b =
    omega (arith, pulled-append l vault a b)

-- What the message itself asks the contract to take.
abbrev pub asked_for : Addr → ExecuteMsg → ℕ
asked_for l (bond_tokens lp_token amount) = if lp_token == l then amount else 0
asked_for l other = 0

module _ (l vault : Addr) where
  transfer-pulled :
      (asset : AssetInfo) (user : Addr) (amount : ℕ) (r : Response)
      → Ensures
          (λ msg. pulled l vault (r ++ msg ∷ []) ≡ pulled l vault r)
          (build_transfer_token_to_user_msg {E = ContractError} asset user amount)
  transfer-pulled (token contract) user amount r =
      ground (arith, pulled-append l vault r (cw20_transfer contract user amount ∷ []))
  transfer-pulled (native_token denom) user amount r =
      ground (arith, pulled-append l vault r (bank_send user denom amount ∷ []))

  payout-pulled :
      (user lp_token : Addr) (info : AssetStakerInfo) (r : Response)
      → Ensures
          (λ p. pulled l vault p.1 ≡ pulled l vault r)
          (withdraw_pending_reward user lp_token info r)
  unfolding withdraw_pending_reward
  payout-pulled user lp_token info r =
      ground (arith, transfer-pulled info.asset user info.pending_reward r)

module _ ⦃d : Decimal⦄ (l vault : Addr) (lp_token user : Addr) (total bonded now : ℕ) where
  abbrev Pulls : Storage × Response → Storage × Response → Type 0
  Pulls p q = pulled l vault q.1 ≡ pulled l vault p.1

  update-pulled :
      (asset : AssetInfo) (s : Storage × Response)
      → Ensures (Pulls s) (
          update_staking_rewards asset lp_token user total bonded now
            (some withdraw_pending_reward)
            s)
  unfolding update_staking_rewards
  update-pulled asset (s, r) =
      Ensures-bind (λ _. Unit {0}) (Pulls (s, r)) (accrue s asset lp_token user total bonded now) _
        (Ensures-of_eq _ (accrue s asset lp_token user total bonded now) λ a e. tt)
        λ x e _.
          Ensures-bind (λ p. pulled l vault p.1 ≡ pulled l vault r) (Pulls (s, r))
            (withdraw_pending_reward user lp_token x.1 r) _
            (payout-pulled l vault user lp_token x.1 r) λ p e' h. h

  update_all-pulled :
      (assets : List AssetInfo) (s : Storage × Response)
      → Ensures
          (Pulls s)
          (update_all assets lp_token user total bonded now (some withdraw_pending_reward) s)
  unfolding update_all
  update_all-pulled [] s = refl
  update_all-pulled (asset ∷ assets) s =
      Ensures-bind (Pulls s) (Pulls s)
        (update_staking_rewards asset lp_token user total bonded now (some withdraw_pending_reward)
          s)
        _ (update-pulled asset s)
        λ t e h.
          subst
            (λ n.
              Ensures (λ q. pulled l vault q.1 ≡ n)
                (update_all assets lp_token user total bonded now (some withdraw_pending_reward) t))
            h (update_all-pulled assets t)

module _ ⦃d : Decimal⦄ (l : Addr) (s : Storage) (env : Env) (info : MessageInfo) (t : Storage)
    (r : Response) where
  bond-pulled :
      (user lp_token : Addr) (amount : ℕ) → bond s env user lp_token amount ≡ ok (t, r) → r ≡ []
  unfolding bond
  bond-pulled user lp_token amount e = ground (
    arith,
    update_all-Kept lp_token user (global_of s lp_token).total_bond_amount
        (bonded_of s lp_token user) env.block_time none (global_of s lp_token).active_reward_assets
        (s, []),
  )

  unbond-pulled :
      (lp_token : Addr) (amount : Option ℕ) → unbond s env info lp_token amount ≡ ok (t, r) → r ≡ []
  unfolding unbond
  unbond-pulled lp_token amount e = ground (
    arith,
    update_all-Kept lp_token info.sender (global_of s lp_token).total_bond_amount
        (bonded_of s lp_token info.sender) env.block_time none
        (global_of s lp_token).active_reward_assets (s, []),
  )

  instant_unbond-pulled :
      (lp_token : Addr) (amount : ℕ)
      → instant_unbond s env info lp_token amount ≡ ok (t, r)
      → pulled l env.contract_address r ≡ 0
  unfolding instant_unbond
  instant_unbond-pulled lp_token amount e = ground (
    arith,
    update_all-Kept lp_token info.sender (global_of s lp_token).total_bond_amount
        (bonded_of s lp_token info.sender) env.block_time none
        (global_of s lp_token).active_reward_assets (s, []),
  )

  unlock-pulled :
      (lp_token : Addr)
      → unlock s env info lp_token ≡ ok (t, r)
      → pulled l env.contract_address r ≡ 0
  unfolding unlock
  unlock-pulled lp_token e = ground arith

  instant_unlock-pulled :
      (lp_token : Addr) (locks : List TokenLock)
      → instant_unlock s env info lp_token locks ≡ ok (t, r)
      → pulled l env.contract_address r ≡ 0
  unfolding instant_unlock
  instant_unlock-pulled lp_token locks e = ground arith

  withdraw-pulled :
      (lp_token : Addr)
      → withdraw s env info lp_token ≡ ok (t, r)
      → pulled l env.contract_address r ≡ 0
  unfolding withdraw
  withdraw-pulled lp_token e = ground (
    arith,
    update_all-pulled l env.contract_address lp_token info.sender
        (global_of s lp_token).total_bond_amount (bonded_of s lp_token info.sender) env.block_time
        (global_of s lp_token).active_reward_assets (s, []),
  )

  claim-pulled :
      (id : ℕ)
      → claim_unallocated_reward s env info id ≡ ok (t, r)
      → pulled l env.contract_address r ≡ 0
  unfolding claim_unallocated_reward
  claim-pulled id e =
      let (schedule, _, e1) =
        >>=-eq-ok (or_err (lookup id s.reward_schedules) (std not_found)) _ e in
      let (_, _, e2) = >>=-eq-ok (guard (info.sender == schedule.creator) unauthorized) _ e1 in
      let (_, _, e3) =
        >>=-eq-ok
          (guard (not (ltb env.block_time schedule.end_block_time)) reward_schedule_is_active) _
          e2 in
      let (_, _, e4) =
        >>=-eq-ok (guard (not (claimable_of s id).claimed) unallocated_reward_already_claimed) _
          e3 in
      let (c, _, e5) =
        >>=-eq-ok (compute_creator_claimable_reward s env schedule (claimable_of s id)) _ e4 in
      ground (
        arith,
        e5,
        transfer-pulled l env.contract_address schedule.asset schedule.creator c.amount [],
      )

  create-pulled :
      (lp_token : Addr) (title : String) (start end : ℕ) (creator : Addr) (asset : Asset)
      → create_reward_schedule s env lp_token title start end creator asset ≡ ok (t, r)
      → r ≡ []
  unfolding create_reward_schedule next_reward_schedule_id
  create-pulled lp_token title start end creator asset e = ground arith

  hook-pulled :
      (m : Cw20ReceiveMsg) (hook : Cw20HookMsg)
      → receive_hook s env info m hook ≡ ok (t, r)
      → r ≡ []
  unfolding receive_hook
  hook-pulled m (hook_bond beneficiary_user) e =
      let (sender, _, e1) = >>=-eq-ok (lift_std (addr_validate env m.sender)) _ e in
      let (user, _, e2) = >>=-eq-ok (address_or env beneficiary_user sender) _ e1 in
      bond-pulled user info.sender m.amount e2
  hook-pulled m (hook_create_reward_schedule lp_token title creator start end) e =
      let (sender, _, e1) = >>=-eq-ok (lift_std (addr_validate env m.sender)) _ e in
      let (_, _, e2) = >>=-eq-ok (guard (sender == s.config.owner) unauthorized) _ e1 in
      let (_, _, e3) =
        >>=-eq-ok
          (guard (contains s.config.allowed_reward_cw20_tokens info.sender) cw20_token_not_allowed)
          _ e2 in
      let (who, _, e4) = >>=-eq-ok (address_or env creator sender) _ e3 in
      create-pulled lp_token title start end who
        (record { info = token info.sender; amount = m.amount }) e4
  hook-pulled m malformed e = cc

module _ ⦃d : Decimal⦄ (l : Addr) (s : Storage) (env : Env) (info : MessageInfo) (t : Storage)
    (r : Response) where
  -- Every message that succeeds has its response pull in exactly the tokens of `l` that it names to bond.
  pub execute-pulled :
      (msg : ExecuteMsg)
      → execute s env info msg ≡ ok (t, r)
      → pulled l env.contract_address r ≡ asked_for l msg
  unfolding execute receive_cw20 Admin.update_config Admin.set_custom_unbond_config
      Admin.unset_custom_unbond_config Admin.allow_lp_token Admin.remove_lp_token
      Admin.allow_reward_cw20_token Admin.remove_reward_cw20_token Admin.propose_owner
      Admin.drop_proposal Admin.claim_owner
  execute-pulled (bond_tokens lp_token amount) e =
      let (p, bonded, e1) = >>=-eq-ok (bond s env info.sender lp_token amount) _ e in
      let silent = bond-pulled l s env info p.0 p.1 info.sender lp_token amount bonded in
      ground (arith, e1, silent)
  execute-pulled (receive m) e = ground (arith, hook-pulled l s env info t r m m.msg e)
  execute-pulled (unbond_tokens lp_token amount) e =
      ground (arith, unbond-pulled l s env info t r lp_token amount e)
  execute-pulled (instant_unbond_tokens lp_token amount) e =
      instant_unbond-pulled l s env info t r lp_token amount e
  execute-pulled (unlock_tokens lp_token) e = unlock-pulled l s env info t r lp_token e
  execute-pulled (instant_unlock_tokens lp_token locks) e =
      instant_unlock-pulled l s env info t r lp_token locks e
  execute-pulled (withdraw_rewards lp_token) e = withdraw-pulled l s env info t r lp_token e
  execute-pulled (create_schedule lp_token title creator start end) e =
      let (_, _, e1) = >>=-eq-ok (only_owner s info) _ e in
      let (coin, _, e2) = >>=-eq-ok (sent_coin info.funds) _ e1 in
      let (who, _, e3) = >>=-eq-ok (address_or env creator info.sender) _ e2 in
      ground (
        arith,
        create-pulled l s env info t r lp_token title start end who
            (record { info = native_token coin.denom; amount = coin.amount }) e3,
      )
  execute-pulled (claim_unallocated id) e = claim-pulled l s env info t r id e
  execute-pulled _ e = ground arith
