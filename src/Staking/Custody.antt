-- ===== src/Staking/Custody.antt =====
-- Which LP tokens the contract holds for its users, and which a message moves. (The tokens of
-- contracts/multi_staking/src/state.rs: those bonded, and those locked after an unbonding.)
pub mod Bonds
pub mod Unlocks
pub mod Pulls
pub mod Messages
pub mod Others
use dexter_core.Prelude.{ℕ, ◌+◌, ◌==◌, nat_eq, pair_eq, List, [], ◌∷◌, if◌then◌else◌}
use dexter_core.Prelude.Dict.{sum}
use dexter_core.Chain.{Addr, Response, CosmosMsg, bank_send, cw20_transfer, cw20_transfer_from}
use dexter_core.Staking.State.{Storage, TokenLock}
use dexter_core.Staking.Locks.{amounts}

abbrev pub bond_weight : Addr → Addr × Addr → ℕ → ℕ
bond_weight lp_token (l, user) amount = if l == lp_token then amount else 0

abbrev pub lock_weight : Addr → Addr × Addr → List TokenLock → ℕ
lock_weight lp_token (l, user) locks = if l == lp_token then amounts locks else 0

-- The tokens that all users together have bonded.
unfoldable pub bonded_total : Addr → Storage → ℕ
bonded_total lp_token s = sum (bond_weight lp_token) s.user_bonded_lp_tokens

-- The tokens that stand in the locks of all users.
unfoldable pub locked_total : Addr → Storage → ℕ
locked_total lp_token s = sum (lock_weight lp_token) s.user_lp_token_locks

-- What the contract owes its users of an LP token.
abbrev pub owed : Addr → Storage → ℕ
owed lp_token s = bonded_total lp_token s + locked_total lp_token s

-- What the messages of a response send away of a token.
abbrev pub outflow : Addr → Response → ℕ
outflow lp_token [] = 0
outflow lp_token (cw20_transfer token recipient amount ∷ msgs) =
    (if token == lp_token then amount else 0) + outflow lp_token msgs
outflow lp_token (bank_send to_address denom amount ∷ msgs) = outflow lp_token msgs
outflow lp_token (cw20_transfer_from token owner recipient amount ∷ msgs) = outflow lp_token msgs

-- What they pull into the contract itself.
abbrev pub pulled : (lp_token vault : Addr) → Response → ℕ
pulled lp_token vault [] = 0
pulled lp_token vault (cw20_transfer_from token owner recipient amount ∷ msgs) =
    (if token == lp_token then (if recipient == vault then amount else 0) else 0)
    + pulled lp_token vault msgs
pulled lp_token vault (bank_send to_address denom amount ∷ msgs) = pulled lp_token vault msgs
pulled lp_token vault (cw20_transfer token recipient amount ∷ msgs) = pulled lp_token vault msgs
