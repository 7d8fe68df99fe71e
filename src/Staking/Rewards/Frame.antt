-- ===== src/Staking/Rewards/Frame.antt =====
-- What an update of the rewards leaves alone.
use dexter_core.Prelude.{
  ℕ, ◌≡◌, refl, ◌∙◌, Option, none, some, List, [], ◌∷◌, Ensures, Ensures-bind, Ensures-of_eq,
}
use dexter_core.Chain.{Addr, Response}
use dexter_core.Chain.Decimal.{Decimal}
use dexter_core.Asset.{AssetInfo}
use dexter_core.Staking.State.{Storage, AssetStakerInfo}
use dexter_core.Staking.Rewards.{
  PostUpdate, post_update, accrue, update_staking_rewards, update_all,
}

-- The second storage differs from the first at most in the rewards of assets, stakers and creators.
pub record IsFrame (s t : Storage) : Type 0 where
  pub config : t.config ≡ s.config
  pub lp_override_config : t.lp_override_config ≡ s.lp_override_config
  pub ownership_proposal : t.ownership_proposal ≡ s.ownership_proposal
  pub reward_schedule_id_count : t.reward_schedule_id_count ≡ s.reward_schedule_id_count
  pub lp_token_asset_reward_schedule :
      t.lp_token_asset_reward_schedule ≡ s.lp_token_asset_reward_schedule
  pub reward_schedules : t.reward_schedules ≡ s.reward_schedules
  pub user_lp_token_locks : t.user_lp_token_locks ≡ s.user_lp_token_locks
  pub user_bonded_lp_tokens : t.user_bonded_lp_tokens ≡ s.user_bonded_lp_tokens
  pub lp_global_state : t.lp_global_state ≡ s.lp_global_state

-- Without a later step the response is not touched either.
abbrev pub IsQuiet : Option PostUpdate → Response → Response → Type 0
IsQuiet none r r' = r' ≡ r
IsQuiet (some f) r r' = Unit

module _ ⦃d : Decimal⦄ (lp_token user : Addr) (total bonded now : ℕ)
    (operation : Option PostUpdate) where
  abbrev pub Kept : Storage × Response → Storage × Response → Type 0
  Kept (s, r) (t, r') = IsFrame s t × IsQuiet operation r r'

  post_update-IsQuiet :
      (info : AssetStakerInfo) (r : Response)
      → (op : Option PostUpdate)
      → Ensures (λ p. IsQuiet op r p.1) (post_update op user lp_token info r)
  post_update-IsQuiet info r none = refl
  post_update-IsQuiet info r (some f) = Ensures-of_eq _ (f user lp_token info r) λ a e. tt

  update_staking_rewards-Kept :
      (asset : AssetInfo) (s : Storage × Response)
      → Ensures (Kept s) (update_staking_rewards asset lp_token user total bonded now operation s)
  unfolding update_staking_rewards
  update_staking_rewards-Kept asset (s, r) =
      Ensures-bind (λ _. Unit {0}) (Kept (s, r)) (accrue s asset lp_token user total bonded now) _
        (Ensures-of_eq _ (accrue s asset lp_token user total bonded now) λ a e. tt)
        λ x e _.
          Ensures-bind (λ p. IsQuiet operation r p.1) (Kept (s, r))
            (post_update operation user lp_token x.1 r) _ (post_update-IsQuiet x.1 r operation)
            λ p e' quiet. (
              record {
                config = refl;
                lp_override_config = refl;
                ownership_proposal = refl;
                reward_schedule_id_count = refl;
                lp_token_asset_reward_schedule = refl;
                reward_schedules = refl;
                user_lp_token_locks = refl;
                user_bonded_lp_tokens = refl;
                lp_global_state = refl;
              },
              quiet,
            )

  IsQuiet-trans :
      (op : Option PostUpdate) (a b c : Response) → IsQuiet op a b → IsQuiet op b c → IsQuiet op a c
  IsQuiet-trans none a b c p q = q ∙ p
  IsQuiet-trans (some f) a b c p q = tt

  Kept-trans : (s t u : Storage × Response) → Kept s t → Kept t u → Kept s u
  Kept-trans s t u (p, q) (p', q') = (
    record {
      config = p'.config ∙ p.config;
      lp_override_config = p'.lp_override_config ∙ p.lp_override_config;
      ownership_proposal = p'.ownership_proposal ∙ p.ownership_proposal;
      reward_schedule_id_count = p'.reward_schedule_id_count ∙ p.reward_schedule_id_count;
      lp_token_asset_reward_schedule =
          p'.lp_token_asset_reward_schedule ∙ p.lp_token_asset_reward_schedule;
      reward_schedules = p'.reward_schedules ∙ p.reward_schedules;
      user_lp_token_locks = p'.user_lp_token_locks ∙ p.user_lp_token_locks;
      user_bonded_lp_tokens = p'.user_bonded_lp_tokens ∙ p.user_bonded_lp_tokens;
      lp_global_state = p'.lp_global_state ∙ p.lp_global_state;
    },
    IsQuiet-trans operation s.1 t.1 u.1 q q',
  )

  IsQuiet-refl : (op : Option PostUpdate) (r : Response) → IsQuiet op r r
  IsQuiet-refl none r = refl
  IsQuiet-refl (some f) r = tt

  Kept-refl : (s : Storage × Response) → Kept s s
  Kept-refl s = (
    record {
      config = refl;
      lp_override_config = refl;
      ownership_proposal = refl;
      reward_schedule_id_count = refl;
      lp_token_asset_reward_schedule = refl;
      reward_schedules = refl;
      user_lp_token_locks = refl;
      user_bonded_lp_tokens = refl;
      lp_global_state = refl;
    },
    IsQuiet-refl operation s.1,
  )

  pub update_all-Kept :
      (assets : List AssetInfo) (s : Storage × Response)
      → Ensures (Kept s) (update_all assets lp_token user total bonded now operation s)
  unfolding update_all
  update_all-Kept [] s = Kept-refl s
  update_all-Kept (asset ∷ assets) s =
      Ensures-bind (Kept s) (Kept s)
        (update_staking_rewards asset lp_token user total bonded now operation s) _
        (update_staking_rewards-Kept asset s)
        λ t e k.
          Ensures-of_eq (Kept s) (update_all assets lp_token user total bonded now operation t)
            λ u e'. Kept-trans s t u k (rw e' at (update_all-Kept assets t))
